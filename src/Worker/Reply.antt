-- ===== src/Worker/Reply.antt =====
-- json and err of lij-worker/src/index.js, the guards that stand first in a route, and early return.
use lijox.Base.{
  ℕ, String, ◌≡◌, refl, ◌≢◌, Bool, true, false, ◌&&◌, Option, none, some, List, [], ◌∷◌, Text,
  codes, num, is_finite, num_lt, Json, obj, Fields, field, end, Stored,
}
use lijox.Platform.{Platform, text_number}

pub data Reply : Type 0 where
  -- err(msg, status)
  err : String → ℕ → Reply
  -- json(data, status)
  json : ℕ → Json → Reply
  -- new Response(bytes) with the headers of this route
  blob : Stored → List (String × Text) → Reply
  -- an exception that the route does not catch
  thrown : Reply

-- A guard returns early with a reply, or lets the route go on with a value.
pub data Check {ℓ} (A : Type ℓ) : Type ℓ where
  stop : Reply → Check A
  go : A → Check A

infixl 5 ◌>>=◌ ◌>>◌
unfoldable pub ◌>>=◌ {ℓ κ} : {A : Type ℓ} {B : Type κ} → Check A → (A → Check B) → Check B
stop r >>= f = stop r
go a >>= f = f a

abbrev pub ◌>>◌ {ℓ} : {B : Type ℓ} → Check (Unit {0}) → Check B → Check B
m >> k = m >>= λ _. k

-- if (bad) return r;
unfoldable pub refuse : Bool → Reply → Check (Unit {0})
refuse true r = stop r
refuse false r = go tt

-- if (!x) return r;
unfoldable pub require {ℓ} : {A : Type ℓ} → Option A → Reply → Check A
require none r = stop r
require (some a) r = go a

-- the store after a route: a route that returned early has written nothing
abbrev pub finish {ℓ} : {S : Type ℓ} → S → Check (S × Reply) → S × Reply
finish s (stop r) = (s, r)
finish s (go t) = t

-- the answer of the rate-limit binding: none is bound, it threw, or it returned {success}
pub data Limiter : Type 0 where
  unbound threw : Limiter
  success : Bool → Limiter

-- rateLimited: a binding error never refuses a wallet
unfoldable pub rate_limited : Limiter → Check (Unit {0})
rate_limited (success false) =
    stop (err "too many requests from this address — try again in a minute" 429)
rate_limited _ = go tt

-- tooLarge: the declared size, before the body is read; no header counts as 0
unfoldable pub too_large : Platform → Option Text → ℕ → Bool
too_large p content_length cap =
    let len = text_number p content_length in is_finite len && num_lt (num cap) len

-- what the POST routes read of a request; `body` is what request.json() returns, if it does
pub record Post : Type 0 where
  pub limiter : Limiter
  pub content_length : Option Text
  pub body : Option Json

-- rateLimited, tooLarge and request.json(), which stand first in each POST route
unfoldable pub open_post : Platform → ℕ → String → String → Post → Check Json
unfolding rate_limited too_large
open_post p cap too_long bad_json r = do
  rate_limited r.limiter
  refuse (too_large p r.content_length cap) (err too_long 413)
  require r.body (err bad_json 400)

-- a JSON object of the given fields
abbrev pub fields_of : List (String × Json) → Fields
fields_of [] = end
fields_of ((k, v) ∷ l) = field (codes k) v (fields_of l)

abbrev pub object : List (String × Json) → Json
object l = obj (fields_of l)

-- Inversion of a route that went through: each guard let it pass.
module _ {ℓ κ} {A : Type ℓ} {B : Type κ} where
  pub >>=-eq-go :
      (m : Check A) (k : A → Check B) {x : B}
      → (m >>= k) ≡ go x
      → (a : A) × (m ≡ go a) × (k a ≡ go x)
  unfolding ◌>>=◌
  >>=-eq-go (go a) k h = (a, refl, h)
  >>=-eq-go (stop r) k h = cc

  pub require-go :
      (o : Option A) (r : Reply) (k : A → Check B) {x : B}
      → (require o r >>= k) ≡ go x
      → (a : A) × (o ≡ some a) × (k a ≡ go x)
  unfolding ◌>>=◌ require
  require-go (some a) r k h = (a, refl, h)
  require-go none r k h = cc

module _ {ℓ} {B : Type ℓ} where
  pub refuse-go :
      (b : Bool) (r : Reply) (k : Unit {0} → Check B) {x : B}
      → (refuse b r >>= k) ≡ go x
      → (b ≡ false) × (k tt ≡ go x)
  unfolding ◌>>=◌ refuse
  refuse-go false r k h = (refl, h)
  refuse-go true r k h = cc

pub go-injective {ℓ} : {A : Type ℓ} {a b : A} → go a ≡ go b → a ≡ b
go-injective h = cc

pub stop-ne-go {ℓ} : {A : Type ℓ} {r : Reply} {a : A} → stop r ≢ go a
stop-ne-go h = cc
