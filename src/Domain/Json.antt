-- ===== src/Domain/Json.antt =====
-- JSON values, in which the stored results and the metadata mappings are written.
use nexabot.Prelude.{ℕ, String, Bool, Option, none, some, str_eq, if◌then◌else◌}

-- `uuid u` is the canonical text `str(u)` of a UUID.
mutual
  pub data Json : Type 0 where
    null : Json
    bool : Bool → Json
    num : ℕ → Json
    str : String → Json
    uuid : ℕ → Json
    obj : Mapping → Json

  pub data Mapping : Type 0 where
    end : Mapping
    entry : String → Json → Mapping → Mapping

-- `data.get(key)`
unfoldable pub get : String → Mapping → Option Json
get key end = none
get key (entry k v rest) = if str_eq k key then some v else get key rest
