-- ===== src/Error.antt =====
-- gateway/src/error.rs, and the results of calls that may fail or panic.
use ilink_gateway.Prelude.{Option, none, some, ◌++◌, ◌≡◌, refl}
use ilink_gateway.Text.{Text, codes}

-- An error of another library is known by the text that it displays.
pub data GatewayError : Type 0 where
  ilink : Text → GatewayError
  http : Text → GatewayError
  serialize : Text → GatewayError
  storage : Text → GatewayError
  agent_not_found : Text → GatewayError
  agent_offline : Text → GatewayError
  command : Text → GatewayError
  config : Text → GatewayError
  io : Text → GatewayError
  not_connected : GatewayError

-- The `Display` of an error.
unfoldable pub show_error : GatewayError → Text
show_error (ilink t) = codes "iLink protocol error: " ++ t
show_error (http t) = codes "HTTP error: " ++ t
show_error (serialize t) = codes "Serialization error: " ++ t
show_error (storage t) = codes "Storage error: " ++ t
show_error (agent_not_found t) = codes "Agent not found: " ++ t
show_error (agent_offline t) = codes "Agent offline: " ++ t
show_error (command t) = codes "Command execution error: " ++ t
show_error (config t) = codes "Configuration error: " ++ t
show_error (io t) = codes "I/O error: " ++ t
show_error not_connected = codes "Not connected to WeChat"

pub data Result {ℓ} (A : Type ℓ) : Type ℓ where
  ok : A → Result A
  err : GatewayError → Result A
  panic : Result A

infixl 5 ◌>>=◌ ◌>>◌
abbrev pub ◌>>=◌ {ℓ κ} : {A : Type ℓ} {B : Type κ} → Result A → (A → Result B) → Result B
ok a >>= f = f a
err e >>= f = err e
panic >>= f = panic

pub ok_inj {ℓ} : {A : Type ℓ} (a b : A) → ok a ≡ ok b → a ≡ b
ok_inj a b h = cc

-- The first call of two that succeed has succeeded.
pub bind-ok {ℓ κ} :
    {A : Type ℓ} {B : Type κ} (m : Result A) (f : A → Result B) (b : B)
    → (m >>= f) ≡ ok b
    → (a : A) × (m ≡ ok a) × (f a ≡ ok b)
bind-ok (ok a) f b h = (a, refl, h)
bind-ok (err e) f b h = absurd cc
bind-ok panic f b h = absurd cc

abbrev pub ◌>>◌ {ℓ κ} : {A : Type ℓ} {B : Type κ} → Result A → Result B → Result B
m >> k = m >>= λ _. k

-- `Option::ok_or_else`
abbrev pub ok_or {ℓ} : {A : Type ℓ} → GatewayError → Option A → Result A
ok_or e none = err e
ok_or e (some a) = ok a
