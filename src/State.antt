-- ===== src/State.antt =====
-- bindings/python/state.py: partial trend states, their expiry and their compaction.
pub mod Compaction
use x_dsi_cet.Base.{
  Bool, true, false, not, ◌&&◌, ◌||◌, Option, none, some, List, [], ◌∷◌, ◌++◌, map, if◌then◌else◌,
  keep,
}
use x_dsi_cet.Base.Int.{ℤ, leb_ℤ}
use x_dsi_cet.Base.Text.{Text, codes, text_eq, text_le, join, int_text}
use x_dsi_cet.Base.Dict.{Dict, text_key, lookup, insert, values}
use x_dsi_cet.Base.Sort.{sort}
use x_dsi_cet.Value.{Fields}
use x_dsi_cet.Platform.{Platform}

pub record PartialTrendState : Type 0 where
  pub query_id : Text
  pub query_version : Text
  pub partition_key : Text
  pub prefix_path : List ℤ
  pub start_time_ms : ℤ
  pub last_event_time_ms : ℤ
  pub expiry_time_ms : ℤ
  pub payload : Fields

unfoldable pub expire_states : ℤ → List PartialTrendState → List PartialTrendState
unfolding keep
expire_states watermark states = keep (λ s. leb_ℤ watermark s.expiry_time_ms) states

-- `a < b or (a == b and rest)`, on texts.
abbrev text_then : Text → Text → Bool → Bool
text_then a b rest = if text_eq a b then rest else text_le a b

module _ (p : Platform) where
  unfoldable pub state_id : PartialTrendState → Text
  unfolding join int_text
  state_id s = p.sha256_hex (
      s.query_id
      ++ b':'
        ∷ (s.query_version
            ++ b':' ∷ (s.partition_key ++ b':' ∷ join (codes ",") (map int_text s.prefix_path))))

  -- The sort key `(partition_key, query_id, state_id)`.
  unfoldable pub state_le : PartialTrendState → PartialTrendState → Bool
  unfolding state_id text_eq text_le
  state_le a b =
      text_then a.partition_key b.partition_key
        (text_then a.query_id b.query_id (text_le (state_id a) (state_id b)))

  -- The state found does not keep a new one out.
  abbrev pub gives_way : PartialTrendState → Option PartialTrendState → Bool
  gives_way s none = true
  gives_way s (some prev) = leb_ℤ prev.last_event_time_ms s.last_event_time_ms

  unfoldable pub note_state :
      PartialTrendState → Dict Text PartialTrendState → Dict Text PartialTrendState
  unfolding lookup insert state_id
  note_state s latest =
      if gives_way s (lookup (state_id s) latest) then insert (state_id s) s latest else latest

  unfoldable pub latest_states :
      List PartialTrendState → Dict Text PartialTrendState → Dict Text PartialTrendState
  unfolding note_state
  latest_states [] latest = latest
  latest_states (s ∷ states) latest = latest_states states (note_state s latest)

  unfoldable pub compact_states : List PartialTrendState → List PartialTrendState
  unfolding latest_states state_le sort values
  compact_states states = sort state_le (values (latest_states states []))
