-- ===== src/RingBuffer/Add.antt =====
-- sxe_ring_buffer_add, which may wrap, and writes into the writable block, as appends to the stream.
use libsxe.Base.{
  ℕ, ◌+◌, ◌-◌, ◌^◌, ◌≤◌, ◌<◌, ◌≡◌, ◌⊎◌, refl, ap, sym, ◌∙◌, true, false, ◌&&◌, List, [], ◌++◌, none,
  some, ◌==◌, ==_iff, ltb, leb, le-or-gt, if◌then◌else◌, Bool-cases, inl, inr, arith, length, take,
  drop, copy_at, length-drop, take_all, append_assoc, length-take, take-drop,
}
use libsxe.RingBuffer.{
  Ring, Context, end, next_iteration, new, write_at, advance, ring_add, next_writable_block,
  fill_block, wrote_block,
}
use libsxe.RingBuffer.Write.{Holds, appended, appended-Holds}

ring_add-inside :
    (r : Ring) (buf : List ℕ)
    → length buf ≤ r.size
    → r.current + length buf ≤ end r + 1
    → ring_add r buf (length buf) ≡ some (appended r buf)
unfolding ring_add
ring_add-inside r buf s f =
    let small : leb (length buf) r.size ≡ true = ground (arith, s) in
    let fits : leb (length buf) (end r + 1 - r.current) ≡ true = ground (arith, f) in
    rw small (
      rw fits (
        ap (λ xs. some (advance (record r { bytes = write_at r r.current xs }) (length buf)))
          (take_all (length buf) buf (omega arith))))

advance-full :
    (r : Ring) (len : ℕ)
    → r.current + len ≡ end r + 1
    → advance r len ≡ record r {
      iteration = next_iteration r.iteration;
      current = r.array_base;
      writen_end = end r;
    }
unfolding advance
advance-full r len e = rw ((==_iff (r.current + len) (end r + 1)).1 e) refl

advance-inside :
    (r : Ring) (len : ℕ)
    → r.writen_end ≡ end r
    → r.current + len < end r + 1
    → advance r len ≡ record r { current = r.current + len }
unfolding advance
advance-inside r len w e =
    let test : (r.current + len == end r + 1) ≡ false = ground (arith, e) in
    let same : (if ltb r.writen_end (r.current + len) then r.current + len - 1 else r.writen_end)
        ≡ r.writen_end =
      ground (arith, w, e) in
    rw test (rw same refl)

-- What fits in front of the end of the array, and the rest of what is added.
abbrev pub first_part : Ring → List ℕ → List ℕ
first_part r buf = take (end r + 1 - r.current) buf

abbrev pub second_part : Ring → List ℕ → List ℕ
second_part r buf = drop (end r + 1 - r.current) buf

-- The ring with the pointers back at the base, and with `bytes` then written.
wrapped : Ring → List ℕ → Ring
wrapped r bytes = record r {
  iteration = next_iteration r.iteration;
  current = r.array_base;
  writen_end = end r;
  bytes = bytes;
}

appended-wrapped :
    (r : Ring) (bytes buf : List ℕ)
    → r.array_base + length buf < end r + 1
    → appended (wrapped r bytes) buf ≡ record (wrapped r bytes) {
      current = r.array_base + length buf;
      bytes = copy_at bytes 0 buf;
    }
unfolding wrapped
appended-wrapped r bytes buf f =
    let zero_at : r.array_base - r.array_base ≡ 0 = omega arith in
    advance-inside
      (record (wrapped r bytes) { bytes = write_at (wrapped r bytes) r.array_base buf })
      (length buf) refl f
    ∙ ap
        (λ at. record (wrapped r bytes) {
          current = r.array_base + length buf;
          bytes = copy_at bytes at buf;
        })
        zero_at

appended-first :
    (r : Ring) (buf : List ℕ)
    → r.current ≤ end r
    → end r + 1 < r.current + length buf
    → appended r (first_part r buf) ≡ wrapped r (write_at r r.current (first_part r buf))
unfolding wrapped
appended-first r buf c f =
    let space = end r + 1 - r.current in
    let one : r.current + length (first_part r buf) ≡ end r + 1 =
      omega (arith, c, f, length-take space buf) in
    advance-full (record r { bytes = write_at r r.current (first_part r buf) })
      (length (first_part r buf)) one

ring_add-wrap :
    (r : Ring) (buf : List ℕ)
    → 0 < r.array_base
    → r.current ≤ end r
    → length buf ≤ r.size
    → end r + 1 < r.current + length buf
    → ring_add r buf (length buf)
      ≡ some (appended (appended r (first_part r buf)) (second_part r buf))
unfolding ring_add wrapped
ring_add-wrap r buf b c s f =
    let space = end r + 1 - r.current in
    let first = first_part r buf in
    let second = second_part r buf in
    let small : leb (length buf) r.size ≡ true = ground (arith, s) in
    let over : leb (length buf) space ≡ false = ground (arith, f) in
    let two : length second ≡ length buf - space = length-drop space buf in
    let bytes = write_at r r.current first in
    let wrap = appended-first r buf c f in
    let room : r.array_base + length second < end r + 1 = omega (arith, two, b, c, s, f) in
    rw small (
      rw over (
        ap
          (λ xs. some (record (wrapped r bytes) {
            current = r.array_base + (length buf - space);
            bytes = copy_at bytes 0 xs;
          }))
          (take_all (length buf - space) second (omega (arith, two)))
        ∙ ap
            (λ k. some (record (wrapped r bytes) {
              current = r.array_base + k;
              bytes = copy_at bytes 0 second;
            }))
            (sym two)
        ∙ ap some (sym (ap (λ q. appended q second) wrap ∙ appended-wrapped r bytes second room))))

-- `buf` is added in one write, or in two, of which the first fills the array.
pub record InOne (r : Ring) (buf : List ℕ) : Type 0 where
  pub fits : r.current + length buf ≤ end r + 1
  pub added : ring_add r buf (length buf) ≡ some (appended r buf)

pub record InTwo (r : Ring) (buf : List ℕ) : Type 0 where
  pub first : List ℕ
  pub second : List ℕ
  pub parts : first ++ second ≡ buf
  pub full : r.current + length first ≡ end r + 1
  pub iteration : (appended r first).iteration ≡ r.iteration + 1
  pub same_size : (appended r first).size ≡ r.size
  pub room : (appended r first).current + length second < end (appended r first) + 1
  pub added : ring_add r buf (length buf) ≡ some (appended (appended r first) second)

pub ring_add-cases :
    {stream : List ℕ} (r : Ring) (buf : List ℕ)
    → Holds r stream
    → r.iteration + 2 < 2 ^ 32
    → length buf ≤ r.size
    → InOne r buf ⊎ InTwo r buf
unfolding wrapped
ring_add-cases r buf h i s = elim (le-or-gt (r.current + length buf) (end r + 1)) [
  | inl f ↦ inl (record { fits = f; added = ring_add-inside r buf s f })
  | inr f ↦
      let space = end r + 1 - r.current in
      let c : r.current ≤ end r = omega (arith, h.base_pos, h.current, h.lap_length) in
      let wrap = appended-first r buf c f in
      let two : length (second_part r buf) ≡ length buf - space = length-drop space buf in
      inr (record {
        first = first_part r buf;
        second = second_part r buf;
        parts = take-drop space buf;
        full = omega (arith, c, f, length-take space buf);
        iteration = omega (arith, ap (λ q. q.iteration) wrap, i);
        same_size = ap (λ q. q.size) wrap;
        room =
            omega (arith, ap (λ q. q.current) wrap, ap (λ q. end q) wrap, two, c, s, f, h.base_pos);
        added = ring_add-wrap r buf h.base_pos c s f;
      })
]

pub appended-two :
    (r : Ring) (stream buf : List ℕ) (t : InTwo r buf)
    → Holds (appended r t.first) (stream ++ t.first)
    → r.iteration + 2 < 2 ^ 32
    → Holds (appended (appended r t.first) t.second) (stream ++ buf)
appended-two r stream buf t held i =
    let whole : (stream ++ t.first) ++ t.second ≡ stream ++ buf =
      append_assoc stream t.first t.second ∙ ap (λ xs. stream ++ xs) t.parts in
    rw (sym whole) (
      appended-Holds (appended r t.first) (stream ++ t.first) t.second held
        (omega (arith, t.iteration, i)) (omega (arith, t.room)))

-- A write of at most the size of the ring, in its first laps (fewer than 2 ^ 32 - 2), passes the assertion
-- and appends its bytes to the stream that the ring holds, also where it wraps.
pub ring_add-Holds :
    (r : Ring) (stream buf : List ℕ)
    → Holds r stream
    → r.iteration + 2 < 2 ^ 32
    → length buf ≤ r.size
    → (r' : Ring) × (ring_add r buf (length buf) ≡ some r') × Holds r' (stream ++ buf)
ring_add-Holds r stream buf h i s = elim (ring_add-cases r buf h i s) [
  | inl one ↦ (appended r buf, one.added, appended-Holds r stream buf h (omega (arith, i)) one.fits)
  | inr two ↦
      let held = appended-Holds r stream two.first h (omega (arith, i)) (omega (arith, two.full)) in
      (appended (appended r two.first) two.second, two.added, appended-two r stream buf two held i)
]

next_writable_block-fields :
    (r : Ring) (c c' : Context)
    → next_writable_block r c ≡ some c'
    → (c'.writable_block ≡ r.current) × (c'.writable_block_len ≡ end r + 1 - r.current)
unfolding next_writable_block
next_writable_block-fields r c c' n =
    let found = record c {
      writable_block = r.current;
      writable_block_len = end r + 1 - r.current;
    } in
    elim (Bool-cases (end r + 1 - r.current == 0)) [
      | inl e ↦
          let impossible : none ≡ some c' = ap (λ b. if b then none else some found) (sym e) ∙ n in
          absurd cc
      | inr e ↦
          let same : some found ≡ some c' = ap (λ b. if b then none else some found) (sym e) ∙ n in
          let equal : found ≡ c' = cc in
          (ap (λ x. x.writable_block) (sym equal), ap (λ x. x.writable_block_len) (sym equal))
    ]

-- The same for bytes that the caller writes into the writable block.
pub wrote_block-Holds :
    (r : Ring) (stream : List ℕ) (c c' : Context) (buf : List ℕ)
    → Holds r stream
    → r.iteration + 1 < 2 ^ 32
    → next_writable_block r c ≡ some c'
    → length buf ≤ c'.writable_block_len
    → (r' : Ring) × (wrote_block (fill_block r c' buf) c' (length buf) ≡ some r')
      × Holds r' (stream ++ buf)
unfolding wrote_block fill_block
wrote_block-Holds r stream c c' buf h i n s =
    let fields = next_writable_block-fields r c c' n in
    let fits : r.current + length buf ≤ end r + 1 =
      omega (arith, s, fields.1, h.current, h.lap_length, h.base_pos) in
    let test : (c'.writable_block == r.current && leb (length buf) (end r + 1 - r.current)) ≡ true =
      ground (arith, s, fields.0, fields.1) in
    (
      appended r buf,
      rw test
          (ap (λ p. some (advance (record r { bytes = write_at r p buf }) (length buf))) fields.0),
      appended-Holds r stream buf h i fits,
    )

-- A new ring holds the empty stream.
pub new-Holds :
    (base : ℕ) (memory : List ℕ)
    → 0 < base
    → 0 < length memory
    → Holds (new base memory (length memory)) []
unfolding new
new-Holds base memory b s = record {
  laps = [];
  last = memory;
  lap = [];
  base_pos = b;
  stream_split = refl;
  last_length = refl;
  lap_length = s;
  bytes = refl;
  current = omega arith;
  first_lap = λ z. (omega arith, refl);
  later_lap = λ p. absurd (omega (arith, p));
}
