-- ===== src/Main/Bounds/Defs.antt =====
-- The indices and their bounds.
use memtype.Base.{◌≤◌, ◌<◌, ◌≡◌, arith}
use memtype.State.{Device}

-- Each index is inside its array: the options, the digits of `USI_keys`, the places of the PIN, the
-- entries of the queue; and the two counters do not pass their limits.
pub record InBounds (d : Device) : Type 0 where
  pub option : d.uif.options_index < 2
  pub digit : d.uif.user_input_index < 10
  pub place : d.usi.user_text_index < 4
  pub retries : d.usi.pin_retries ≤ 2
  pub entry : d.printer.act_string < 5
  pub pause : d.printer.debounce_count ≤ 50

-- The same menus, the same entry of the PIN and the same printer, but for what waits in the queue.
pub record SameIndices (d d' : Device) : Type 0 where
  pub uif_kept : d'.uif.options_index ≡ d.uif.options_index
  pub digit_kept : d'.uif.user_input_index ≡ d.uif.user_input_index
  pub place_kept : d'.usi.user_text_index ≡ d.usi.user_text_index
  pub retries_kept : d'.usi.pin_retries ≡ d.usi.pin_retries
  pub entry_kept : d'.printer.act_string ≡ d.printer.act_string
  pub pause_kept : d'.printer.debounce_count ≡ d.printer.debounce_count

pub SameIndices-InBounds : (d d' : Device) → SameIndices d d' → InBounds d → InBounds d'
SameIndices-InBounds d d' s v = record {
  option = omega (arith, s.uif_kept, v.option);
  digit = omega (arith, s.digit_kept, v.digit);
  place = omega (arith, s.place_kept, v.place);
  retries = omega (arith, s.retries_kept, v.retries);
  entry = omega (arith, s.entry_kept, v.entry);
  pause = omega (arith, s.pause_kept, v.pause);
}
