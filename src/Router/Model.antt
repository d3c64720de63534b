-- ===== src/Router/Model.antt =====
-- x/router/model.go: protocols, messages, responses, and the callbacks of a dispatcher.
use sardis.Common.{
  ℕ, Bool, true, ◌&&◌, Option, none, some, ◌≡◌, ◌↔◌, String, string_comparable, Comparable, ◌==◌,
  arith, eq_iff,
}
use sardis.Common.Int.{ℤ, pos, beq_ℤ_iff, int_comparable}

pub record Protocol : Type 0 where
  pub schema : String
  pub version : ℤ

abbrev pub zero_protocol : Protocol
zero_protocol = record { schema = ""; version = pos 0 }

abbrev protocol_beq : Protocol → Protocol → Bool
protocol_beq p q = p.schema == q.schema && p.version == q.version

pub protocol_beq_iff : (p q : Protocol) → (protocol_beq p q ≡ true) ↔ (p ≡ q)
protocol_beq_iff p q = ground (arith, eq_iff p.schema q.schema, beq_ℤ_iff p.version q.version)

instance abbrev pub protocol_comparable : Comparable Protocol
protocol_comparable = record {
  beq = protocol_beq;
  beq_iff = protocol_beq_iff;
  zero_value = zero_protocol;
}

-- `Protocol.IsZero`
unfoldable pub is_zero : Protocol → Bool
is_zero p = p.schema == "" && p.version == pos 0

pub is_zero_iff : (p : Protocol) → (is_zero p ≡ true) ↔ (p ≡ zero_protocol)
unfolding is_zero
is_zero_iff p = ground (arith, eq_iff p.schema "", beq_ℤ_iff p.version (pos 0))

-- Errors: the two of the file, those of callers (and what `Recover` makes of their panics), the
-- `*Error` that annotates one, and two that `erc` joined.
pub data Error : Type 0 where
  no_handler no_protocol : Error
  foreign : ℕ → Error
  routed : (id : String) (protocol : Protocol) (err : Error) → Error
  joined : Error → Error → Error

-- `(*Error).Unwrap`; `none` for an error that wraps nothing or is no `*Error`.
unfoldable pub unwrap : Error → Option Error
unwrap (routed id protocol err) = some err
unwrap _ = none

-- The payloads `any` are a type parameter, with `none` for nil.
pub record Message (P : Type 0) : Type 0 where
  pub protocol : Protocol
  pub id : String
  pub payload : Option P

pub record Response (P : Type 0) : Type 0 where
  pub protocol : Protocol
  pub id : String
  pub payload : Option P
  pub error : Option Error

abbrev pub zero_response : {P : Type 0} → Response P
zero_response = record { protocol = zero_protocol; id = ""; payload = none; error = none }

-- A callback returns, or panics with a value that becomes an error.
pub data Called (A : Type 0) : Type 0 where
  returned : A → Called A
  panicked : Error → Called A

-- `W` is what the callbacks can change. Middleware and interceptors write through a pointer, also
-- where they fail.
abbrev pub Filter : Type 0 → Type 0 → Type 0
Filter W X = W → X → W × X × Called (Option Error)

abbrev pub Middleware : Type 0 → Type 0 → Type 0
Middleware W P = Filter W (Message P)

abbrev pub Interceptor : Type 0 → Type 0 → Type 0
Interceptor W P = Filter W (Response P)

abbrev pub Handler : Type 0 → Type 0 → Type 0
Handler W P = W → Message P → W × Called (Response P × Option Error)
