-- ===== src/Mongox/Act.antt =====
-- What the repository of src/core_py/model/mongox/repository.py works with: steps on a state that
-- may raise, the collection (`CollectionLike`) and the entity's class, which are the caller's.
use core_py.Base.{ℕ, Bool, Option, List, Result, ok, err, ◌≡◌, refl}
use core_py.Base.Text.{Str}
use core_py.Context.{Var}
use core_py.Data.{Kind}
use core_py.Model.Options.{Objects}
use core_py.Model.Audit.{Entity}
use core_py.Mongox.Value.{Value, Fields, Attrs}
use core_py.Mongox.Codec.{DbError, Unsupported}
use core_py.Mongox.Query.{Sort, FieldType}

-- What an operation raises: an error of data.py, the database's own exception, or a TypeError.
pub data Raised : Type 0 where
  known : Kind → Raised
  db : DbError → Raised
  type_error : Unsupported → Raised

abbrev pub Act {ℓ κ} : Type ℓ → Type κ → Type (ℓ ⊔ κ)
Act S A = S → Result Raised A × S

abbrev pub after {ℓ κ μ} :
    {S : Type ℓ} {A : Type κ} {B : Type μ}
    → Result Raised A × S
    → (A → Act S B)
    → Result Raised B × S
after (err e, s) f = (err e, s)
after (ok a, s) f = f a s

infixl 5 ◌>>=◌ ◌>>◌
abbrev pub ◌>>=◌ {ℓ κ μ} :
    {S : Type ℓ} {A : Type κ} {B : Type μ} → Act S A → (A → Act S B) → Act S B
m >>= f = λ s. after (m s) f

abbrev pub ◌>>◌ {ℓ κ} : {S : Type ℓ} {B : Type κ} → Act S (Unit {0}) → Act S B → Act S B
m >> k = m >>= λ _. k

abbrev pub done {ℓ κ} : {S : Type ℓ} {A : Type κ} → A → Act S A
done a = λ s. (ok a, s)

abbrev pub raise {ℓ κ} : {S : Type ℓ} {A : Type κ} → Kind → Act S A
raise e = λ s. (err (known e), s)

abbrev pub lift {ℓ κ} : {S : Type ℓ} {A : Type κ} → Result Kind A → Act S A
lift (ok a) = done a
lift (err e) = raise e

-- Keyword arguments of `find`.
pub record FindOpts : Type 0 where
  pub limit : Option ℕ
  pub skip : Option ℕ
  pub sort : Option Sort

-- `upserted` says that `upserted_id` is not None.
pub record UpdateResult : Type 0 where
  pub matched_count : ℕ
  pub modified_count : ℕ
  pub upserted : Bool

-- A call of the collection returns or raises the database's exception.
abbrev pub Call {ℓ κ} : Type ℓ → Type κ → Type (ℓ ⊔ κ)
Call σ A = σ → Result DbError A × σ

-- `pause` is what others do to the collection while the repository sleeps.
pub record Collection {ℓ} (σ : Type ℓ) : Type ℓ where
  pub name : Option Str
  pub class_name : Str
  pub find : Fields → FindOpts → Call σ (List Fields)
  pub find_one : Fields → Call σ (Option Fields)
  pub count_documents : Fields → Call σ ℕ
  pub insert_one : Fields → Call σ (Unit {0})
  pub insert_many : List Fields → Call σ (Unit {0})
  pub replace_one : Fields → Fields → Bool → Call σ UpdateResult
  pub update_one : Fields → Fields → Call σ UpdateResult
  pub update_many : Fields → Fields → Call σ UpdateResult
  pub delete_one : Fields → Call σ ℕ
  pub delete_many : Fields → Call σ ℕ
  pub pause : σ → σ

-- The audit protocols that an entity's class offers.
pub record Supports : Type 0 where
  pub creator : Bool
  pub updater : Bool
  pub deleter : Bool
  pub tenant : Bool

-- A dataclass of entities: its fields, its id, its audit parts, what `decode_document` and the types
-- of its fields give, and a time as its audit parts store it. `supports` is none where the repository has no `entity_type`.
pub record EntityClass {ℓ} (T : Type ℓ) : Type ℓ where
  pub supports : Option Supports
  pub get_id : T → Value
  pub attrs : T → Attrs
  pub audit_of : T → Entity
  pub with_audit : Entity → T → T
  pub decode : Fields → T
  pub field_type : Str → Option FieldType
  pub time : ℕ → Value

-- The context variable with its options, and the readings of the clock.
pub record Env : Type 0 where
  pub ctx : Var
  pub objects : Objects
  pub now : ℕ
  pub later : ℕ

-- Functions of the language on texts: `str` of a value, and the parsers of a feed token.
pub record Texts : Type 0 where
  pub show : Value → Str
  pub to_float : Str → Option ℕ
  pub from_isoformat : Str → Option ℕ

abbrev pub from_db {ℓ κ} : {σ : Type ℓ} {A : Type κ} → Result DbError A × σ → Result Raised A × σ
from_db (err e, s) = (err (db e), s)
from_db (ok a, s) = (ok a, s)

abbrev pub called {ℓ κ} : {σ : Type ℓ} {A : Type κ} → Call σ A → Act σ A
called call = λ s. from_db (call s)

-- Inversions of a step that returns.
pub after-eq-ok {ℓ κ μ} :
    {S : Type ℓ} {A : Type κ} {B : Type μ} (m : Result Raised A × S) (f : A → Act S B) {b : B}
    {t : S}
    → after m f ≡ (ok b, t)
    → (a : A) × (s : S) × (m ≡ (ok a, s)) × (f a s ≡ (ok b, t))
after-eq-ok (ok a, s) f h = (a, s, refl, h)
after-eq-ok (err e, s) f h = absurd cc

pub from_db-eq-ok {ℓ κ} :
    {S : Type ℓ} {A : Type κ} (m : Result DbError A × S) {a : A} {t : S}
    → from_db m ≡ (ok a, t)
    → m ≡ (ok a, t)
from_db-eq-ok (ok a, s) h = cc
from_db-eq-ok (err e, s) h = absurd cc

pub lift-eq-ok {ℓ κ} :
    {S : Type ℓ} {A : Type κ} (m : Result Kind A) (s : S) {a : A} {t : S}
    → lift m s ≡ (ok a, t)
    → m ≡ ok a
lift-eq-ok (ok a) s h = cc
lift-eq-ok (err e) s h = absurd cc

pub done-eq-ok {ℓ κ} :
    {S : Type ℓ} {A : Type κ} (a : A) (s : S) {b : A} {t : S}
    → ◌≡◌ {A = Result Raised A × S} (ok a, s) (ok b, t)
    → a ≡ b
done-eq-ok a s h = cc

-- Two continuations that agree on what a step returns.
pub after-cong {ℓ κ μ} :
    {S : Type ℓ} {A : Type κ} {B : Type μ} (m : Result Raised A × S) (f g : A → Act S B)
    → ((a : A) (s : S) → m ≡ (ok a, s) → f a s ≡ g a s)
    → after m f ≡ after m g
after-cong (ok a, s) f g h = h a s refl
after-cong (err e, s) f g h = refl
