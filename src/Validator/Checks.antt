-- ===== src/Validator/Checks.antt =====
-- PoC-webui-v2/internal/validator/validator.go: the state `v` of a validation and what adds to it.
-- The part that is only read is the Env, an argument; `out` is what a check appends. The name spaces
-- of the Env are what `names` returns. Maps are association lists.
pub mod Passing
use songbird_prototypes.Prelude.{
  ℕ, ◌+◌, String, Bool, ◌&&◌, not, Option, none, some, List, [], ◌∷◌, ◌++◌, if◌then◌else◌, is_empty,
  lookup, contains, concat, join, quoted, decimal,
}
use songbird_prototypes.Model.Tree.{Tree, Doc, header, file_path}
use songbird_prototypes.Model.System.{SystemSpec}
use songbird_prototypes.Validator.Errors.{Error}

pub record Located : Type 0 where
  pub error : Error
  pub obj : Option Doc

-- The object of the check, and its file.
pub record Place : Type 0 where
  pub cur : Option Doc
  pub file : String

-- A map from names to objects.
abbrev pub NameSpace : Type 0
NameSpace = List (String × Doc)

pub record Env : Type 0 where
  pub t : Tree
  pub sys : SystemSpec
  pub appliance : Bool  -- Options
  pub addr_ns : NameSpace
  pub svc_ns : NameSpace
  pub net_ns : NameSpace
  pub colors : NameSpace

-- `out` is only appended to: a check returns what it appends, with its result and the next place.
pub record Outcome (A : Type 0) : Type 0 where
  pub result : A
  pub found : List Located
  pub place : Place

abbrev pub Check : Type 0 → Type 0
Check A = Place → Outcome A

unfoldable pub return : {A : Type 0} → A → Check A
return a p = record { result = a; found = []; place = p }

infixl 5 ◌>>=◌ ◌>>◌
unfoldable pub ◌>>=◌ : {A B : Type 0} → Check A → (A → Check B) → Check B
◌>>=◌ m f p =
    let first = m p in
    let second = f first.result first.place in
    record { result = second.result; found = first.found ++ second.found; place = second.place }

abbrev pub ◌>>◌ : {B : Type 0} → Check (Unit {0}) → Check B → Check B
m >> k = m >>= λ _. k

-- No further check.
abbrev pub done : Check (Unit {0})
done = return tt

unfoldable pub at : Doc → Check (Unit {0})
at o p =
    let (kind, meta) = header o in
    record {
      result = tt;
      found = [];
      place = record { cur = some o; file = file_path kind meta.name };
    }

-- `x.cur, x.file = nil, file`.
unfoldable pub at_file : String → Check (Unit {0})
at_file file p = record { result = tt; found = []; place = record { cur = none; file = file } }

-- The reason is formatted by the caller.
unfoldable pub add : String → String → String → String → String → Check (Unit {0})
add sev rule dm path reason p = record {
  result = tt;
  found =
      record {
        error = record {
          file = p.file;
          line = 0;
          path = path;
          reason = reason;
          rule = rule;
          constraint = dm;
          severity = sev;
        };
        obj = p.cur;
      }
      ∷ [];
  place = p;
}

unfoldable pub err : String → String → String → String → Check (Unit {0})
unfolding add
err rule dm path reason = add "error" rule dm path reason

unfoldable pub warn : String → String → String → String → Check (Unit {0})
unfolding add
warn rule dm path reason = add "warning" rule dm path reason

-- `if b { m }`.
unfoldable pub when : Bool → Check (Unit {0}) → Check (Unit {0})
when b m = if b then m else done

-- The check of a value that is there.
unfoldable pub given : {A : Type 0} → Option A → (A → Check (Unit {0})) → Check (Unit {0})
given none f = done
given (some a) f = f a

unfoldable pub for : {A : Type 0} → List A → (A → Check (Unit {0})) → Check (Unit {0})
for [] f = done
for (x ∷ xs) f = f x >> for xs f

-- `for k, x := range xs`, from index `k`.
unfoldable pub for_from : {A : Type 0} → ℕ → List A → (ℕ → A → Check (Unit {0})) → Check (Unit {0})
for_from k [] f = done
for_from k (x ∷ xs) f = f k x >> for_from (k + 1) xs f

-- A loop with variables of its own.
unfoldable pub fold : {A S : Type 0} → List A → (A → S → Check S) → S → Check S
fold [] f s = return s
fold (x ∷ xs) f s = f x s >>= fold xs f

unfoldable pub fold_from : {A S : Type 0} → ℕ → List A → (ℕ → A → S → Check S) → S → Check S
fold_from k [] f s = return s
fold_from k (x ∷ xs) f s = f k x s >>= fold_from (k + 1) xs f

-- `path[k]`.
abbrev pub indexed : String → ℕ → String
indexed path k = concat (path ∷ "[" ∷ decimal k ∷ "]" ∷ [])

unfoldable pub kind_of : Doc → String
kind_of o = (header o).0

-- A reference to an object that is there, but maybe of the wrong kind.
unfoldable pub ref_to : Doc → String → String → List String → Check (Option Doc)
unfolding kind_of
ref_to o name path kinds =
    if not (is_empty kinds) && not (contains kinds (kind_of o))
    then err "wrong-kind" "DM-02" path
        (concat (quoted name ∷ " is a " ∷ kind_of o ∷ ", expected " ∷ join " or " kinds ∷ []))
      >> return none
    else return (some o)

-- A reference (DM-02) and its target, or `none`. Any kind is allowed where `kinds` is empty.
unfoldable pub ref_in : Option Doc → String → String → List String → Check (Option Doc)
unfolding ref_to
ref_in none name path kinds =
    err "dangling-ref" "DM-02" path (concat ("references unknown object " ∷ quoted name ∷ []))
    >> return none
ref_in (some o) name path kinds = ref_to o name path kinds

unfoldable pub ref : NameSpace → String → String → List String → Check (Option Doc)
unfolding ref_in
ref ns name path kinds = ref_in (lookup name ns) name path kinds
