-- ===== src/Args/Ensures.antt =====
-- Predicates on the results of the parsers, carried along from one to the next.
use mdb.Base.{◌≡◌, Option, none, some, Bool, true, false, if◌then◌else◌}
use mdb.Args.{Ran, ok, exits, ◌>>=◌}
use mdb.Args.Libc.{Str}
use mdb.Args.Profile.{on_rest}
use mdb.Args.Numbers.{>>=-ok}

-- The predicate holds of the result, where there is one.
pub record Ensures {ℓ κ} {A : Type ℓ} (P : A → Type κ) (m : Ran A) : Type (ℓ ⊔ κ) where
  pub holds : (a : A) → m ≡ ok a → P a

pub ok-Ensures {ℓ κ} : {A : Type ℓ} {P : A → Type κ} {a : A} → P a → Ensures P (ok a)
ok-Ensures {a = a} p = record { holds = λ b e. let q : a ≡ b = cc in rw q at p }

pub exits-Ensures {ℓ κ} : {A : Type ℓ} {P : A → Type κ} → Ensures P exits
exits-Ensures = record { holds = λ b e. cc }

pub if-Ensures {ℓ κ} :
    {A : Type ℓ} {P : A → Type κ} (b : Bool) {x y : Ran A}
    → Ensures P x
    → Ensures P y
    → Ensures P (if b then x else y)
if-Ensures true p q = p
if-Ensures false p q = q

pub >>=-Ensures {ℓ κ ι μ} :
    {A : Type ℓ} {P : A → Type κ} {B : Type ι} {Q : B → Type μ} (m : Ran B) {f : B → Ran A}
    → Ensures Q m
    → ((b : B) → Q b → Ensures P (f b))
    → Ensures P (m >>= f)
>>=-Ensures m {f} q k = record {
  holds = λ a e. let x = >>=-ok m f e in (k x.0 (q.holds x.0 x.1)).holds a x.2;
}

-- Whatever the first parser returns.
pub any-Ensures {ℓ κ ι} :
    {A : Type ℓ} {P : A → Type κ} {B : Type ι} (m : Ran B) {f : B → Ran A}
    → ((b : B) → Ensures P (f b))
    → Ensures P (m >>= f)
any-Ensures m k =
    >>=-Ensures {ℓ, κ, ι, 0} {Q = λ _. Unit} m (record { holds = λ a e. tt }) (λ b u. k b)

pub on_rest-Ensures {ℓ κ} :
    {A : Type ℓ} {P : A → Type κ} (o : Option Str) {found : Str → Ran A} {others : Ran A}
    → ((next : Str) → Ensures P (found next))
    → Ensures P others
    → Ensures P (on_rest o found others)
unfolding on_rest
on_rest-Ensures none p q = q
on_rest-Ensures (some next) p q = p next
