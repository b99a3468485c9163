-- ===== src/Query.antt =====
-- query/query.go: the options of a paged query.
use flipchat_server.Base.{
  ltb, if◌then◌else◌, Bytes, bytes_eq, ℤ, pos, negsuc, ℕ, zero, suc, ◌≡◌, refl, Bool, false, Option,
  none, some, List, [], ◌∷◌, ◌++◌, arith,
}

-- `commonpb.QueryOptions_Order`
pub data Order : Type 0 where
  asc desc : Order

-- A limit is never set to a value that is not positive.
pub record Options : Type 0 where
  pub limit : ℕ
  pub token : Option Bytes
  pub order : Order

-- `query.Option`: a change of the options.
abbrev pub Setting : Type 0
Setting = Options → Options

unfoldable pub with_limit : ℤ → Setting
with_limit (pos n) o = if ltb 0 n then record o { limit = n } else o
with_limit (negsuc n) o = o

unfoldable pub with_token : Option Bytes → Setting
with_token token o = record o { token = token }

unfoldable pub with_order : Order → Setting
with_order order o = record o { order = order }

unfoldable pub with_ascending : Setting
with_ascending o = record o { order = asc }

unfoldable pub with_descending : Setting
with_descending o = record o { order = desc }

abbrev pub default_options : Options
default_options = record { limit = 100; token = none; order = asc }

apply_from : Options → List Setting → Options
apply_from applied [] = applied
apply_from applied (option ∷ options) = apply_from (option applied) options

unfoldable pub apply_options : List Setting → Options
unfolding apply_from
apply_options = apply_from default_options

-- `commonpb.QueryOptions`
pub record ProtoOptions : Type 0 where
  pub page_size : ℤ
  pub paging_token : Option Bytes
  pub order : Order

abbrev pub is_positive : ℤ → Bool
is_positive (pos n) = ltb 0 n
is_positive (negsuc n) = false

unfoldable pub from_proto_options : Option ProtoOptions → List Setting
unfolding with_limit with_token with_order
from_proto_options none = []
from_proto_options (some p) =
    with_order p.order
    ∷ ((if is_positive p.page_size then with_limit p.page_size ∷ [] else [])
        ++ elim p.paging_token [ none ↦ [] | some token ↦ with_token (some token) ∷ [] ])

-- The page size that a request asks for, or the default.
abbrev pub page_limit : ℤ → ℕ
page_limit (pos zero) = 100
page_limit (pos (suc n)) = suc n
page_limit (negsuc n) = 100

-- The options that a request's options stand for: its order and token, and its page size where
-- that is positive, else 100; a request without options asks for the first 100 in ascending order.
pub apply_options-from_proto_options :
    (p : ProtoOptions)
    → (apply_options (from_proto_options (some p))
        ≡ record { limit = page_limit p.page_size; token = p.paging_token; order = p.order })
      × (apply_options (from_proto_options none)
          ≡ record { limit = 100; token = none; order = asc })
unfolding apply_options from_proto_options with_limit with_token with_order
apply_options-from_proto_options p = (ground arith, refl)
