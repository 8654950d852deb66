-- ===== src/Ip.antt =====
-- What the code uses of third-party address code: IPy's class `IP` and `socket.inet_pton`.
pub mod Concrete
use irrd.Base.{ℕ, String, Bool, Option, List}

pub record IpLib : Type 1 where
  pub IP : Type 0
  -- `IP(text)`; `none` stands for the `ValueError`
  pub parse : String → Option IP
  pub version : IP → ℕ
  pub prefixlen : IP → ℕ
  -- `strBin()`, the bits of the first address
  pub str_bin : IP → List Bool
  pub overlaps : IP → IP → Bool
  -- `a in b`
  pub within : IP → IP → Bool
  -- `v46map()`; `none` stands for the `ValueError`
  pub v46map : IP → Option IP
  -- `inet_pton(AF_INET6, text)` if the flag is set, otherwise `inet_pton(AF_INET, text)`
  pub inet_pton : Bool → String → List ℕ
