-- ===== src/Paging.antt =====
-- Relay connections (api/src/graphql/pagination.rs). GraphQL's `Int` is a ℤ.
pub mod Windows
use microticket.Prelude.{
  ℕ, Text, Bool, true, false, not, ◌&&◌, ◌||◌, Option, none, some, List, [], ◌∷◌, ltb, length, take,
  reverse, map, if◌then◌else◌, Result, ok, err,
}
use microticket.Prelude.Int.{ℤ, pos, negsuc}

pub data PageError : Type 0 where
  both_given first_negative first_too_large last_negative last_too_large : PageError

-- One of the two arguments, in range.
abbrev pub in_page : ℤ → ℕ → Bool → PageError → PageError → Result PageError (ℕ × Bool)
in_page (negsuc n) max_size is_last negative too_large = err negative
in_page (pos v) max_size is_last negative too_large =
    if ltb max_size v then err too_large else ok (v, is_last)

unfoldable pub pagination_args : Option ℤ → Option ℤ → ℕ → ℕ → Result PageError (ℕ × Bool)
pagination_args (some v) (some w) default_size max_size = err both_given
pagination_args (some v) none default_size max_size =
    in_page v max_size false first_negative first_too_large
pagination_args none (some v) default_size max_size =
    in_page v max_size true last_negative last_too_large
pagination_args none none default_size max_size = ok (default_size, false)

pub record Connection (E : Type 0) : Type 0 where
  pub has_previous_page : Bool
  pub has_next_page : Bool
  pub edges : List E

module _ {T E : Type 0} where
  unfoldable pub build_connection : List T → ℕ → Bool → Bool → Bool → (T → E) → Connection E
  build_connection rows page_size is_last_mode has_after has_before to_edge =
      let fetched_extra = ltb page_size (length rows) in
      let page = if fetched_extra then take page_size rows else rows in
      let ordered = if is_last_mode then reverse page else page in
      record {
        has_previous_page = if is_last_mode then fetched_extra || has_after else has_after;
        has_next_page = if is_last_mode then has_before else fetched_extra;
        edges = map to_edge ordered;
      }
