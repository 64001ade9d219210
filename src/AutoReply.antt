-- ===== src/AutoReply.antt =====
-- The auto-reply switches of clients.go and the cooldown of router.go. Times are nanoseconds.
pub mod Cooldown
use gomsggw.Base.{
  ℕ, ◌+◌, ◌*◌, Bool, true, false, not, ◌&&◌, ◌||◌, List, [], ◌∷◌, ◌++◌, Option, none, some, Text,
  leb, ltb, ◌==◌, Eq_Text, if◌then◌else◌,
}
use gomsggw.Base.Map.{lookup, insert}
use gomsggw.Client.{NumberSettings}

-- `AutoReplyEnabled` and `AutoReplyDefaultMsg` of the gateway
pub record AutoReplyConfig : Type 0 where
  pub enabled : Bool
  pub default_msg : Text

abbrev pub is_empty : Text → Bool
is_empty [] = true
is_empty (_ ∷ _) = false

-- The message that is sent, if it is not empty.
enabled_reply : Text → Bool × Text
enabled_reply message = if is_empty message then (false, []) else (true, message)

unfoldable pub resolve_auto_reply : AutoReplyConfig → Option NumberSettings → Bool × Text
unfolding enabled_reply
resolve_auto_reply config none = (false, [])
resolve_auto_reply config (some s) =
    if not config.enabled
    then (false, [])
    else if not s.auto_reply_enabled
    then (false, [])
    else enabled_reply
        (if is_empty s.auto_reply_message then config.default_msg else s.auto_reply_message)

-- The cooldown of a destination number, in seconds.
unfoldable pub cooldown_of : Option NumberSettings → ℕ
cooldown_of none = 60
cooldown_of (some s) = if leb 1 s.auto_reply_cooldown_sec then s.auto_reply_cooldown_sec else 60

abbrev pub LastSent : Type 0
LastSent = List (Text × ℕ)

abbrev pub second : ℕ
second = 1_000_000_000

unfoldable pub cooldown_key : Text → Text → Text
cooldown_key from to = from ++ (b'|' ∷ to)

-- `now.Sub(last) < cooldown`, for the last reply if there was one
unfoldable pub is_cooling : Option ℕ → ℕ → ℕ → Bool
is_cooling none cooldown now = false
is_cooling (some last) cooldown now = ltb now (last + cooldown * second)

unfoldable pub allow_key : ℕ → Text → ℕ → LastSent → LastSent × Bool
unfolding is_cooling
allow_key now key cooldown m =
    if leb cooldown 0
    then (m, true)
    else if is_cooling (lookup key m) cooldown now
    then (m, false)
    else (insert key now m, true)

unfoldable pub allow : ℕ → Text → Text → ℕ → LastSent → LastSent × Bool
unfolding allow_key cooldown_key
allow now from to cooldown m = allow_key now (cooldown_key from to) cooldown m
