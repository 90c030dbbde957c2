-- ===== src/Http/Message/Total.antt =====
-- The loops of sxe_http_message_parse_next_header end: each line continuation is behind the one before.
use libsxe.Base.{
  ℕ, zero, suc, ◌+◌, ◌-◌, ◌≤◌, ◌<◌, ◌≡◌, refl, ap, ◌∙◌, Bool, true, false, ◌&&◌, List, Option, some,
  ◌==◌, if◌then◌else◌, get_or, arith, Bool-cases, inl, inr,
}
use libsxe.Http.Message.{
  HttpMessage, Outcome, ok, end_of_file, would_block, bad_message, Scan, found, bare_new_line,
  partial, skip_whitespace, new_line, byte_at, carriage_return,
}
use libsxe.Http.Message.Header.{
  Stage, stop, go, line_done, leave_field, until, ignore_out, ignore_line_end, ignore_found,
  ignore_loop, ignore_current, value_scan, ValueEnd, ends, whole, continues, value_end, trimmed,
  value_loop, parse_value, value_skipped, start_value, name_scan, name_end, parse_name,
  behind_ignored, behind_left, parse_next_header, behind_line,
}

-- A scan finds nothing in front of where it starts.
abbrev NotBefore : ℕ → Scan → Type 0
NotBefore from (found offset) = from ≤ offset
NotBefore from bare_new_line = Unit {0}
NotBefore from (partial offset) = Unit {0}

NotBefore-le : (a b : ℕ) (s : Scan) → a ≤ b → NotBefore b s → NotBefore a s
NotBefore-le a b (found offset) h n = omega (arith, h, n)
NotBefore-le a b bare_new_line h n = n
NotBefore-le a b (partial offset) h n = n

NotBefore-if :
    (from : ℕ) (test : Bool) (s t : Scan)
    → NotBefore from s
    → NotBefore from t
    → NotBefore from (if test then s else t)
NotBefore-if from true s t a b = a
NotBefore-if from false s t a b = b

here : (offset : ℕ) → NotBefore offset (found offset)
here offset = omega arith

until-NotBefore :
    (byte : ℕ) (buffer : List ℕ) (left offset : ℕ)
    → NotBefore offset (until byte buffer left offset)
unfolding until
until-NotBefore byte buffer zero offset =
    NotBefore-if offset (get_or buffer offset 0 == byte) (found offset) (partial offset)
      (here offset) tt
until-NotBefore byte buffer (suc left) offset =
    let rest = until byte buffer left (offset + 1) in
    NotBefore-if offset (get_or buffer offset 0 == byte) (found offset) rest (here offset) (
      NotBefore-le offset (offset + 1) rest (omega arith)
        (until-NotBefore byte buffer left (offset + 1)))

value_scan-NotBefore :
    (buffer : List ℕ) (left offset : ℕ) → NotBefore offset (value_scan buffer left offset)
unfolding value_scan
value_scan-NotBefore buffer zero offset =
    let c = get_or buffer offset 0 in
    NotBefore-if offset (c == carriage_return) (found offset)
      (if c == new_line then bare_new_line else partial offset) (here offset)
      (NotBefore-if offset (c == new_line) bare_new_line (partial offset) tt tt)
value_scan-NotBefore buffer (suc left) offset =
    let c = get_or buffer offset 0 in
    let rest = value_scan buffer left (offset + 1) in
    NotBefore-if offset (c == carriage_return) (found offset)
      (if c == new_line then bare_new_line else rest) (here offset)
      (NotBefore-if offset (c == new_line) bare_new_line rest tt (
        NotBefore-le offset (offset + 1) rest (omega arith)
          (value_scan-NotBefore buffer left (offset + 1))))

-- A line continuation is behind where the loop was, and inside the buffer.
value_end-continues :
    (m next : HttpMessage) (scan : Scan)
    → NotBefore (m.value_offset + m.value_length) scan
    → value_end m scan ≡ continues next
    → (next.buffer_length ≡ m.buffer_length)
      × (m.value_offset + m.value_length < next.value_offset + next.value_length)
      × (next.value_offset + next.value_length < next.buffer_length)
unfolding value_end
value_end-continues m next bare_new_line b e = absurd cc
value_end-continues m next (partial offset) b e = absurd cc
value_end-continues m next (found offset) b e = ground (arith, e, b)

ignore_found-go :
    (m next : HttpMessage) (scan : Scan)
    → NotBefore m.consumed scan
    → ignore_found m scan ≡ go next
    → (next.buffer_length ≡ m.buffer_length)
      × (m.consumed < next.consumed)
      × (next.consumed < next.buffer_length)
unfolding ignore_found ignore_line_end ignore_out
ignore_found-go m next bare_new_line b e = absurd cc
ignore_found-go m next (partial offset) b e = absurd cc
ignore_found-go m next (found offset) b e = ground (arith, e, b)

ignore_loop_step :
    (fuel : ℕ) (m : HttpMessage) (s : Stage)
    → ignore_found m (until new_line m.buffer (m.buffer_length - m.consumed) m.consumed) ≡ s
    → ((next : HttpMessage)
        → m.consumed < next.consumed
        → next.consumed < next.buffer_length
        → next.buffer_length ≡ m.buffer_length
        → (stage : Stage) × (ignore_loop fuel next ≡ some stage))
    → (stage : Stage) × (ignore_loop (suc fuel) m ≡ some stage)
unfolding ignore_loop
ignore_loop_step fuel m (stop m' outcome) e more = (stop m' outcome, rw (e, ignore_loop) refl)
ignore_loop_step fuel m (go m') e more =
    let left = m.buffer_length - m.consumed in
    let further =
      ignore_found-go m m' (until new_line m.buffer left m.consumed)
        (until-NotBefore new_line m.buffer left m.consumed) e in
    let (stage, r) = more m' further.1 further.2 further.0 in (stage, rw (e, ignore_loop) r)

ignore_loop_total :
    (fuel : ℕ) (m : HttpMessage)
    → m.buffer_length - m.consumed < fuel
    → (stage : Stage) × (ignore_loop fuel m ≡ some stage)
ignore_loop_total zero m h = absurd (omega (arith, h))
ignore_loop_total (suc fuel) m h =
    ignore_loop_step fuel m
      (ignore_found m (until new_line m.buffer (m.buffer_length - m.consumed) m.consumed)) refl
      (λ next a b c. ignore_loop_total fuel next (omega (arith, a, b, c, h)))

ignore_current_total : (m : HttpMessage) → (stage : Stage) × (ignore_current m ≡ some stage)
unfolding ignore_current
ignore_current_total m = elim (Bool-cases m.ignore_line) [
  | inl e ↦
      let fuel = suc (m.buffer_length - m.consumed) in
      let (stage, r) = ignore_loop_total fuel m (omega arith) in
      (stage, ap (λ b. if b then ignore_loop fuel m else some (go m)) e ∙ r)
  | inr e ↦ (
    go m,
    ap (λ b. if b then ignore_loop (suc (m.buffer_length - m.consumed)) m else some (go m)) e,
  )
]

module _ (isgraph isspace : ℕ → Bool) where
  abbrev Returns : Option (HttpMessage × Outcome) → Type 0
  Returns r = (m : HttpMessage) × (outcome : Outcome) × (r ≡ some (m, outcome))

  value_loop_step :
      (fuel : ℕ) (m : HttpMessage) (v : ValueEnd)
      → value_end m (
          value_scan m.buffer
            (m.buffer_length - (m.value_offset + m.value_length))
            (m.value_offset + m.value_length))
        ≡ v
      → ((next : HttpMessage)
          → m.value_offset + m.value_length < next.value_offset + next.value_length
          → next.value_offset + next.value_length < next.buffer_length
          → next.buffer_length ≡ m.buffer_length
          → Returns (value_loop isgraph isspace fuel next))
      → Returns (value_loop isgraph isspace (suc fuel) m)
  unfolding value_loop
  value_loop_step fuel m (ends m' outcome) e more = (m', outcome, rw (e, value_loop) refl)
  value_loop_step fuel m (whole m') e more = (
    record m' { value_length = trimmed isgraph isspace m' m'.value_length },
    ok,
    rw (e, value_loop) refl,
  )
  value_loop_step fuel m (continues m') e more =
      let from = m.value_offset + m.value_length in
      let further =
        value_end-continues m m' (value_scan m.buffer (m.buffer_length - from) from)
          (value_scan-NotBefore m.buffer (m.buffer_length - from) from) e in
      let (m'', outcome, r) = more m' further.1 further.2 further.0 in
      (m'', outcome, rw (e, value_loop) r)

  value_loop_total :
      (fuel : ℕ) (m : HttpMessage)
      → m.buffer_length - (m.value_offset + m.value_length) < fuel
      → Returns (value_loop isgraph isspace fuel m)
  value_loop_total zero m h = absurd (omega (arith, h))
  value_loop_total (suc fuel) m h =
      let from = m.value_offset + m.value_length in
      value_loop_step fuel m (value_end m (value_scan m.buffer (m.buffer_length - from) from)) refl
        (λ next a b c. value_loop_total fuel next (omega (arith, a, b, c, h)))

  parse_value_total : (m : HttpMessage) → Returns (parse_value isgraph isspace m)
  unfolding parse_value
  parse_value_total m =
      value_loop_total (suc (m.buffer_length - (m.value_offset + m.value_length))) m (omega arith)

  value_skipped_total :
      (m : HttpMessage) (r : Outcome × ℕ) → Returns (value_skipped isgraph isspace m r)
  unfolding value_skipped
  value_skipped_total m (ok, offset) = parse_value_total (record m { value_offset = offset })
  value_skipped_total m (end_of_file, offset) =
      (record m { value_offset = offset }, would_block, refl)
  value_skipped_total m (would_block, offset) =
      (record m { value_offset = offset }, would_block, refl)
  value_skipped_total m (bad_message, offset) =
      (record m { value_offset = offset }, would_block, refl)

  start_value_total : (m : HttpMessage) → Returns (start_value isgraph isspace m)
  unfolding start_value
  start_value_total m = elim (Bool-cases (m.value_length == 0)) [
    | inl e ↦ rw e (value_skipped_total m (skip_whitespace m m.value_offset))
    | inr e ↦ rw e (parse_value_total m)
  ]

  name_end_total : (m : HttpMessage) (s : Scan) → Returns (name_end isgraph isspace m s)
  unfolding name_end
  name_end_total m bare_new_line = (m, bad_message, refl)
  name_end_total m (partial offset) =
      (record m { name_length = offset - m.consumed }, would_block, refl)
  name_end_total m (found offset) =
      start_value_total (record m { name_length = offset - m.consumed; value_offset = offset + 1 })

  parse_name_total : (m : HttpMessage) → Returns (parse_name isgraph isspace m)
  unfolding parse_name
  parse_name_total m =
      let from = m.consumed + m.name_length in
      elim (Bool-cases (m.value_offset == 0)) [
        | inr e ↦ rw e (start_value_total m)
        | inl e ↦ elim (Bool-cases (m.name_length == 0 && byte_at m m.consumed == 58)) [
          | inl b ↦ (m, bad_message, rw e (rw b refl))
          | inr b ↦ rw e (
              rw b (
                name_end_total m
                  (name_scan isgraph isspace m.buffer (m.buffer_length - from) from)))
        ]
      ]

  behind_ignored_total : (s : Stage) → Returns (behind_ignored isgraph isspace (some s))
  unfolding behind_ignored
  behind_ignored_total (stop m outcome) = (m, outcome, refl)
  behind_ignored_total (go m) = parse_name_total m

  behind_left_total : (s : Stage) → Returns (behind_left isgraph isspace s)
  unfolding behind_left
  behind_left_total (stop m outcome) = (m, outcome, refl)
  behind_left_total (go m) =
      let (stage, r) = ignore_current_total m in
      let (m', outcome, q) = behind_ignored_total stage in
      (m', outcome, ap (behind_ignored isgraph isspace) r ∙ q)

  -- Where the request or response line has been parsed, so that the assertions pass, the call for the next
  -- header returns: its loops over line continuations end, whatever the buffer holds.
  pub parse_next_header_total :
      (m ready : HttpMessage)
      → line_done m ≡ some ready
      → (next : HttpMessage) × (outcome : Outcome) × (parse_next_header isgraph isspace m
          ≡ some (next, outcome))
  unfolding parse_next_header behind_line
  parse_next_header_total m ready e =
      let (next, outcome, r) =
        behind_left_total (leave_field (record ready { ignore_length = 0 })) in
      (next, outcome, ap (behind_line isgraph isspace) e ∙ r)
