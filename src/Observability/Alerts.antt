-- ===== src/Observability/Alerts.antt =====
-- src/ingestion_framework/observability/alerts.py: the channels of an alert and its dispatch. The
-- senders are a parameter: each may raise and may change what is outside.
pub mod Accounting
use oracle_repo.Base.{
  ℕ, ◌+◌, String, ◌<>◌, ◌||◌, Option, none, some, List, [], ◌∷◌, length, if◌then◌else◌,
}
use oracle_repo.Base.Text.{strip, lower, is_blank}
use oracle_repo.Base.Text.Scan.{split_first}
use oracle_repo.Base.Dict.{get, put}
use oracle_repo.Platform.{channel_parse_error, Error, Result, ok, err}

pub record Channel : Type 0 where
  pub kind : String
  pub target : String

-- `str(channel)`
unfoldable pub channel_text : Channel → String
channel_text c = c.kind <> (":" <> c.target)

-- `kind:target`, where the target may hold colons itself.
unfoldable pub parse_channel : String → Result Channel
parse_channel spec = elim (split_first b':' (strip spec)) [
  | none ↦ err channel_parse_error
  | some parts ↦
      if is_blank (strip parts.0) || is_blank (strip parts.1)
      then err channel_parse_error
      else ok (record { kind = lower (strip parts.0); target = strip parts.1 })
]

pub record DispatchResult : Type 0 where
  pub delivered : List Channel
  pub failed : List (Channel × Error)
  pub unroutable : List String

unfoldable pub attempted : DispatchResult → ℕ
attempted r = length r.delivered + length r.failed

-- What delivers an alert, a value of type `A`, and changes what is outside, of type `O`.
abbrev pub Sender : Type 0 → Type 0 → Type 0
Sender A O = Channel → A → O → Result (Unit {0}) × O

pub record AlertDispatcher (A O : Type 0) : Type 0 where
  pub senders : List (String × Sender A O)
  pub default_sender : Sender A O

-- A channel and what its sender returned or raised; `none` for a channel that does not parse.
abbrev pub Sent : Type 0
Sent = Option (Channel × Result (Unit {0}))

unfoldable pub add_outcome : String → Sent → DispatchResult → DispatchResult
add_outcome spec none r = record r { unroutable = spec ∷ r.unroutable }
add_outcome spec (some (c, ok u)) r = record r { delivered = c ∷ r.delivered }
add_outcome spec (some (c, err e)) r = record r { failed = (c, e) ∷ r.failed }

module _ {A O : Type 0} where
  unfoldable pub register : String → Sender A O → AlertDispatcher A O → AlertDispatcher A O
  unfolding put
  register kind sender d = record d { senders = put (lower kind) sender d.senders }

  -- `self._senders.get(channel.kind, self._default)`
  unfoldable pub sender_of : AlertDispatcher A O → Channel → Sender A O
  unfolding get
  sender_of d c = elim (get c.kind d.senders) [ none ↦ d.default_sender | some s ↦ s ]

  unfoldable pub send_to : AlertDispatcher A O → A → Result Channel → O → Sent × O
  unfolding sender_of
  send_to d alert (err e) o = (none, o)
  send_to d alert (ok c) o = let (sent, o') = sender_of d c c alert o in (some (c, sent), o')

  -- `dispatch` never raises.
  unfoldable pub dispatch : AlertDispatcher A O → A → List String → O → DispatchResult × O
  unfolding parse_channel send_to add_outcome
  dispatch d alert [] o = (record { delivered = []; failed = []; unroutable = [] }, o)
  dispatch d alert (spec ∷ specs) o =
      let (sent, o') = send_to d alert (parse_channel spec) o in
      let (r, o'') = dispatch d alert specs o' in (add_outcome spec sent r, o'')
