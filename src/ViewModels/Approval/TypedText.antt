-- ===== src/ViewModels/Approval/TypedText.antt =====
-- tui/viewmodels/approval_vm.py: what the user types in place of a choice of the menu.
use milky_frog_lite.Prelude.{
  ◌∷◌, str_eq, ◌||◌, some, String, Option, Bool, List, none, false, [], true, if◌then◌else◌,
}
use milky_frog_lite.Domain.Approval.{ApprovalVerdict}
use milky_frog_lite.ViewModels.Approval.{
  ApprovalViewModel, ApprovalRequired, approved, denied, current, record_verdict, apply_action,
}

-- Python's methods on texts: `strip`, `lower`, `startswith`, and the slice from a position on.
pub record TextMethods : Type 0 where
  pub strip : String → String
  pub lower : String → String
  pub startswith : String → String → Bool
  pub drop_prefix : String → String → String

-- `ApprovalVerdict | str | None`
pub data Parsed : Type 0 where
  verdict_of : ApprovalVerdict → Parsed
  action_of : String → Parsed
  unread : Parsed

abbrev pub is_one_of : List String → String → Bool
is_one_of [] text = false
is_one_of (t ∷ ts) text = str_eq t text || is_one_of ts text

module _ (methods : TextMethods) where
  -- The loop over the two prefixes.
  unfoldable pub because : List String → String → Option ApprovalVerdict
  because [] text = none
  because (prefix ∷ prefixes) text =
      if methods.startswith (methods.lower (methods.strip text)) prefix
      then some (denied (some (methods.strip (methods.drop_prefix prefix (methods.strip text)))))
      else because prefixes text

  always : String → Parsed
  always lowered =
      if is_one_of ("always" ∷ "always allow" ∷ []) lowered
      then action_of "allow_tool"
      else if is_one_of
          ("always all" ∷ "always_all" ∷ "alwaysall" ∷ "don't ask again" ∷ "dont ask again" ∷ [])
          lowered
      then action_of "allow_all"
      else unread

  reason_or : Option ApprovalVerdict → Parsed → Parsed
  reason_or none otherwise = otherwise
  reason_or (some verdict) otherwise = verdict_of verdict

  unfoldable pub parse : String → Parsed
  unfolding because always reason_or
  parse text =
      let lowered = methods.lower (methods.strip text) in
      if is_one_of ("y" ∷ "yes" ∷ "approve" ∷ []) lowered
      then verdict_of approved
      else if is_one_of ("n" ∷ "no" ∷ "deny" ∷ []) lowered
      then verdict_of (denied none)
      else reason_or (because ("no because " ∷ "n because " ∷ []) text) (always lowered)

  unfoldable pub answer : Parsed → ApprovalViewModel → ApprovalViewModel
  unfolding apply_action record_verdict
  answer (verdict_of verdict) s = record_verdict verdict s (current s)
  answer (action_of action) s = apply_action action s
  answer unread s = s

  unfoldable pub give_reason : String → ApprovalViewModel → ApprovalViewModel
  unfolding record_verdict
  give_reason reason s =
      if str_eq reason "" then s else record_verdict (denied (some reason)) s (current s)

  -- Whether the text was consumed, and what it leaves.
  unfoldable pub read_text :
      String → ApprovalViewModel → Option ApprovalRequired → Bool × ApprovalViewModel
  unfolding answer give_reason parse
  read_text text s none = (false, s)
  read_text text s (some event) = (
    true,
    if s.deny_reason_mode then give_reason (methods.strip text) s else answer (parse text) s,
  )

  unfoldable pub handle_text_input : String → ApprovalViewModel → Bool × ApprovalViewModel
  unfolding read_text
  handle_text_input text s = read_text text s s.pending
