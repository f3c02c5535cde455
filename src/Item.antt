-- ===== src/Item.antt =====
-- internal/datastructure/common.go: the items of the stores, and the limits of active expiration.
use valkeydb.Base.{ℕ, Bool, not, ◌&&◌, Option, none, some, [], Str}
use valkeydb.Base.Map.{Map}
use valkeydb.Clock.{Time, zero_time, is_zero, after}
pub use valkeydb.Config.{ExpirationConfig}

-- `Members` is a `map[string]struct{}`; the nil map and the empty one are both `[]`.
pub record Item : Type 0 where
  pub value : Str
  pub members : Map (Unit {0})
  pub expired_at : Time

-- `Item{}`
abbrev pub zero_item : Item
zero_item = record { value = []; members = []; expired_at = zero_time }

-- `Item{Value: value}`
abbrev pub value_item : Str → Item
value_item value = record zero_item { value = value }

-- The argument is `config.Global`, which may be nil.
unfoldable pub get_max_sample_size : Option ExpirationConfig → ℕ
get_max_sample_size none = 20
get_max_sample_size (some c) = c.max_sample_size

unfoldable pub get_max_sample_rounds : Option ExpirationConfig → ℕ
get_max_sample_rounds none = 3
get_max_sample_rounds (some c) = c.max_sample_rounds

-- The test that `Dict` and `Set` both write out as `isExpired`.
unfoldable pub is_expired : Item → Time → Bool
unfolding is_zero after
is_expired item now = not (is_zero item.expired_at) && after now item.expired_at
