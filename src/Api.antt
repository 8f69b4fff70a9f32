-- ===== src/Api.antt =====
-- PoC-webui-v2/internal/api: the changes that the handlers of config.go hand to `Update` of the Config
-- Manager, and the guards of api.go before a handler runs. The Validator is the one of Validator/Run.
pub mod Accepted
pub mod Saved
pub mod Import
use songbird_prototypes.Prelude.{
  ℕ, String, ◌⊎◌, inl, inr, Bool, true, false, ◌&&◌, ◌||◌, not, Option, none, some, List, [], ◌∷◌,
  ◌==◌, if◌then◌else◌, any, all, is_empty, concat, quoted,
}
use songbird_prototypes.Model.Types.{Object, UserSpec}
use songbird_prototypes.Model.Tree.{Tree, Doc, user_doc, header, file_path, kind_by_name}
use songbird_prototypes.Model.Objects.{find}
use songbird_prototypes.Model.Edits.{put, delete, get}
use songbird_prototypes.Model.Uuids.{assign_uuids}
use songbird_prototypes.Netip.{Texts}
use songbird_prototypes.Predefined.{Shipped, color_hex, is_service}
use songbird_prototypes.Validator.Errors.{Error, errors}
use songbird_prototypes.Validator.Run.{Issue, validate}
use songbird_prototypes.Configstore.{
  Change, is_known, Failure, failed, rejected, no_change, conflict, short,
}

pub record ApiError : Type 0 where
  pub code : ℕ
  pub msg : String
  pub validation : List Error
  pub warnings : List Error

abbrev pub api_error : ℕ → String → ApiError
api_error code msg = record { code = code; msg = msg; validation = []; warnings = [] }

-- What `mutation` leaves: its tree, its one change and what it stores through its pointers.
pub record Edited : Type 0 where
  pub tree : Tree
  pub change : Change
  pub before : Option Doc
  pub after : Option Doc
  pub warnings : List Error

abbrev draft : String → String → Option Doc → Option Doc → Tree → Edited
draft kind name before after t = record {
  tree = t;
  change = record { kind = kind; name = name; obj = after };
  before = before;
  after = after;
  warnings = [];
}

-- What the closure of a handler returns to `Update`.
unfoldable pub changes_of : ApiError ⊎ Edited → ApiError ⊎ List Change
changes_of (inl e) = inl e
changes_of (inr r) = inr (r.change ∷ [])

-- `fail`: the code and the text of the answer to an error of `Update`.
unfoldable pub fail : Failure ApiError → ApiError
fail (rejected e) = e
fail (conflict f head) = api_error 409 (
    concat
      (f ∷ " was changed by another commit since your revision (HEAD is " ∷ short head ∷ ")" ∷ []))
fail no_change = api_error 409 "nothing changed"
fail (failed msg) = api_error 500 msg

-- A finding without its line.
unfoldable pub key : Error → String
key e = concat (e.file ∷ "\0" ∷ e.path ∷ "\0" ∷ e.rule ∷ "\0" ∷ e.reason ∷ [])

unfoldable pub is_old : List Error → Error → Bool
unfolding key
is_old before e = any (λ o. key o == key e) before

keep_new : (Error → Bool) → List Error → List Error
keep_new old [] = []
keep_new old (e ∷ l) = let rest = keep_new old l in if not (old e) then e ∷ rest else rest

-- The errors that `before` does not have.
unfoldable pub new_errors : List Error → List Error → List Error
unfolding keep_new is_old
new_errors before after = keep_new (is_old before) (errors after)

unfoldable pub warnings_for : List Error → String → List Error
warnings_for [] file = []
warnings_for (e ∷ l) file =
    let rest = warnings_for l file in
    if (e.severity == "warning") && (e.file == file) then e ∷ rest else rest

-- The answer of the role checks: none admits the request. `session` is the one of the cookie.
unfoldable pub authed : Option String → Option ApiError
authed none = some (api_error 401 "authentication required")
authed (some role) = none

unfoldable pub writer : Option String → Option ApiError
writer none = some (api_error 401 "authentication required")
writer (some role) =
    if role == "admin"
    then none
    else some (api_error 403 "the read-only Role cannot change anything")

-- `secure`, before any handler: a write carries a header that a foreign form cannot set.
unfoldable pub secure : String → String → Option ApiError
secure method requested_with =
    if not (method == "GET") && not (method == "HEAD") && not (requested_with == "songbird")
    then some (api_error 403 "missing X-Requested-With header")
    else none

abbrev pub is_full : {A : Type 0} → Option A → Bool
is_full none = false
is_full (some a) = true

-- The three cases that are refused before anything is changed.
unfoldable pub guard : String → String → Bool → Bool → Bool → Option ApiError
guard kind name create del exists =
    if create && exists
    then some (api_error 409 (concat (kind ∷ " " ∷ quoted name ∷ " already exists" ∷ [])))
    else if not create && not exists
    then some (api_error 404 (concat (kind ∷ " " ∷ quoted name ∷ " does not exist" ∷ [])))
    else if (kind == "System") && (create || del)
    then some (api_error 422 "System is a singleton: it can be edited, not created or deleted")
    else none

-- The objects that are shipped with the program are not deleted.
unfoldable pub protected : Shipped → String → String → Option ApiError
protected shipped kind name =
    if (kind == "Color") && is_full (color_hex shipped name)
    then some
        (api_error 422 "predefined Colors cannot be deleted (DM-21); edit their comment instead")
    else if (kind == "Service") && is_service shipped name
    then some (api_error 422 "predefined Services cannot be deleted (DM-21)")
    else none

-- `new_uuid` is as in Model/Uuids, `type_text` the `%T` of fmt.
module _ (netip : Texts) (shipped : Shipped) (schema : Doc → List Issue)
    (line_of : Doc → String → ℕ) (new_uuid : ℕ → String) (type_text : Doc → String) where
  -- The verdict on the tree of a change.
  judged : String → String → Tree → Edited → ApiError ⊎ Edited
  judged kind name t r =
      let baseline = validate netip shipped schema line_of t in
      let all = validate netip shipped schema line_of r.tree in
      let errs = new_errors baseline all in
      let warns = warnings_for all (file_path kind name) in
      if not (is_empty errs)
      then inl (record {
        code = 422;
        msg = "the change is not valid";
        validation = errs;
        warnings = warns;
      })
      else inr (record r { warnings = warns })

  stored : String → String → Tree → Option Doc → Doc → Option Tree → ApiError ⊎ Edited
  unfolding judged
  stored kind name t old o none =
      inl (api_error 400 (concat ("cannot store " ∷ type_text o ∷ " as " ∷ (header o).0 ∷ [])))
  stored kind name t old o (some t') = judged kind name t (draft kind name old (some o) t')

  removed : String → String → Tree → Option Doc → Option ApiError → ApiError ⊎ Edited
  unfolding judged
  removed kind name t old (some e) = inl e
  removed kind name t old none =
      judged kind name t (draft kind name old none (delete t kind name).0)

  -- Without a document the object is deleted. The number counts the uuids made.
  edited : String → String → Option Doc → Tree → Option Doc → ℕ → (ApiError ⊎ Edited) × ℕ
  unfolding stored removed protected
  edited kind name none t old n = (removed kind name t old (protected shipped kind name), n)
  edited kind name (some o) t old n =
      let (o', n') = assign_uuids new_uuid o old n in (stored kind name t old o' (put t o'), n')

  guarded :
      Option ApiError
      → String
      → String
      → Option Doc
      → Tree
      → Option Doc
      → ℕ
      → (ApiError ⊎ Edited) × ℕ
  unfolding edited
  guarded (some e) kind name obj t old n = (inl e, n)
  guarded none kind name obj t old n = edited kind name obj t old n

  unfoldable pub mutation : String → String → Option Doc → Bool → Tree → ℕ → (ApiError ⊎ Edited) × ℕ
  unfolding guarded guard
  mutation kind name obj create t n =
      let old = get t kind name in
      if not (is_known (kind_by_name kind))
      then (inl (api_error 404 (concat ("unknown kind " ∷ kind ∷ []))), n)
      else guarded (guard kind name create (not (is_full obj)) (is_full old)) kind name obj t old n

-- The User that `putUser` stores: the uuid, the comment and so on are kept, and the hash if none is new.
-- None is a new User without a password.
unfoldable pub user_of :
    String → String → String → Option (Object UserSpec) → Option (Object UserSpec)
user_of name role hash none =
    if hash == ""
    then none
    else some (record {
      api_version = "config.songbird-fw.com/v1alpha1";
      kind = "User";
      metadata = record {
        name = name;
        uuid = "";
        comment = "";
        color = "";
        category = "";
        labels = [];
      };
      spec = record { role = role; password_hash = hash };
    })
user_of name role hash (some o) = some (record {
  api_version = "config.songbird-fw.com/v1alpha1";
  kind = "User";
  metadata = o.metadata;
  spec = record { role = role; password_hash = if hash == "" then o.spec.password_hash else hash };
})

module _ (netip : Texts) (shipped : Shipped) (schema : Doc → List Issue)
    (line_of : Doc → String → ℕ) (new_uuid : ℕ → String) (type_text : Doc → String) where
  with_user : String → Option (Object UserSpec) → Bool → Tree → ℕ → (ApiError ⊎ Edited) × ℕ
  with_user name none create t n = (inl (api_error 422 "a password is required for a new User"), n)
  with_user name (some u) create t n =
      mutation netip shipped schema line_of new_uuid type_text "User" name (some (user_doc u))
        create t n

  -- The change of `putUser`; the hash is that of the password, or empty.
  unfoldable pub user_change : String → String → String → Tree → ℕ → (ApiError ⊎ Edited) × ℕ
  unfolding with_user
  user_change name role hash t n =
      let old = find name t.users in
      with_user name (user_of name role hash old) (not (is_full old)) t n
