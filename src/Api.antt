-- ===== src/Api.antt =====
-- The error types and the answers of src/api.rs, and the error of a pull in src/cli/pull.rs.
pub mod Requests
pub mod Laws
mod Tests
use figmog.Prelude.{ℕ}
use figmog.Prelude.Text.{Str}

pub data Result {ℓ κ} (E : Type ℓ) (A : Type κ) : Type (ℓ ⊔ κ) where
  ok : A → Result E A
  err : E → Result E A

-- `Duration` in seconds
pub data ApiError : Type 0 where
  rate_limited : ℕ → ApiError
  auth : ApiError
  http : ℕ → Str → ApiError
  network : Str → ApiError
  parse : Str → ApiError

pub record FileMetaResp : Type 0 where
  pub name : Str
  pub last_touched_at : Str

pub data PullError : Type 0 where
  api : ApiError → PullError
  other : Str → PullError

infixl 5 ◌>>=◌
abbrev pub ◌>>=◌ {ℓ κ μ} :
    {E : Type ℓ} {A : Type κ} {B : Type μ} → Result E A → (A → Result E B) → Result E B
ok a >>= f = f a
err e >>= f = err e
