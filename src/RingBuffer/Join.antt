-- ===== src/RingBuffer/Join.antt =====
-- Where a reader of lib-sxe-ring-buffer/sxe-ring-buffer.c joins the stream.
use libsxe.Base.{
  ℕ, ◌+◌, ◌-◌, ◌/◌, ◌≤◌, ◌<◌, ◌≡◌, ◌⊎◌, refl, ap, sym, ◌∙◌, Bool, true, false, List, [], ◌++◌, ◌==◌,
  ==_iff, leb, Bool-cases, inl, inr, arith, length, take, drop, length-append, length-drop,
  drop_all, append_assoc, take-drop,
}
use libsxe.RingBuffer.{Ring, Context, join}
use libsxe.RingBuffer.Write.{Holds}
use libsxe.RingBuffer.Read.{Reads}

-- What a context still has to read is a suffix of the stream.
pub Reads-suffix :
    {stream : List ℕ} (r : Ring) (h : Holds r stream) (c : Context) (unread : List ℕ)
    → Reads r h c unread
    → (before : List ℕ) × (stream ≡ before ++ unread)
Reads-suffix r h c unread (inl s) = (
  h.laps ++ take s.o h.lap,
  h.stream_split
      ∙ ap (λ xs. h.laps ++ xs) (sym (take-drop s.o h.lap))
      ∙ sym (append_assoc h.laps (take s.o h.lap) (drop s.o h.lap))
      ∙ ap (λ xs. (h.laps ++ take s.o h.lap) ++ xs) (sym s.rest),
)
Reads-suffix r h c unread (inr s) =
    let split = (h.later_lap (omega (arith, s.itteration))).1 in
    let before = split.0 ++ take s.o h.last in
    (
      before,
      h.stream_split
          ∙ ap (λ xs. xs ++ h.lap)
              (split.1
                ∙ ap (λ xs. split.0 ++ xs) (sym (take-drop s.o h.last))
                ∙ sym (append_assoc split.0 (take s.o h.last) (drop s.o h.last)))
          ∙ append_assoc before (drop s.o h.last) h.lap
          ∙ ap (λ xs. before ++ xs) (sym s.rest),
    )

-- What a replay leaves to read: half a ring, rounded down or up, or the whole stream where that is
-- shorter than half a ring.
abbrev Half : ℕ → List ℕ → List ℕ → Type 0
Half size stream unread =
    (length unread ≡ size / 2)
    ⊎ ((length unread ≡ size - size / 2) ⊎ ((unread ≡ stream) × (length stream < size / 2)))

-- Where a context stands that has joined.
pub record Joined {stream : List ℕ} (r : Ring) (h : Holds r stream) (c : Context)
    (replay_half : Bool) : Type 0 where
  pub unread : List ℕ
  pub reads : Reads r h (join r c replay_half) unread
  pub new_bytes : replay_half ≡ false → unread ≡ []
  pub half : replay_half ≡ true → Half r.size stream unread

join-now : {stream : List ℕ} (r : Ring) (h : Holds r stream) (c : Context) → Joined r h c false
unfolding join
join-now r h c = record {
  unread = [];
  reads = inl (record {
    o = length h.lap;
    itteration = refl;
    data_block = h.current;
    inside = omega arith;
    rest = sym (drop_all (length h.lap) h.lap (omega arith));
    held = omega arith;
  });
  new_bytes = λ e. refl;
  half = λ e. absurd cc;
}

join-replay : {stream : List ℕ} (r : Ring) (h : Holds r stream) (c : Context) → Joined r h c true
unfolding join
join-replay {stream = stream} r h c =
    elim (Bool-cases (leb (r.size / 2) (r.current - r.array_base))) [
      | inl e ↦
          let enough : r.size / 2 ≤ length h.lap = ground (arith, e, h.current) in
          let at = length h.lap - r.size / 2 in
          record {
            unread = drop at h.lap;
            reads = rw e (
                inl (record {
                  o = at;
                  itteration = refl;
                  data_block = omega (arith, h.current, enough);
                  inside = omega arith;
                  rest = refl;
                  held = omega arith;
                }));
            new_bytes = λ z. absurd cc;
            half = λ z. inl (omega (arith, length-drop at h.lap, enough));
          }
      | inr e ↦
          let little : length h.lap < r.size / 2 = ground (arith, e, h.current) in
          elim (Bool-cases (r.iteration == 0)) [
            | inl z ↦ record {
              unread = h.lap;
              reads = rw e (
                  rw z (
                    inl (record {
                      o = 0;
                      itteration = refl;
                      data_block = omega arith;
                      inside = omega arith;
                      rest = refl;
                      held = omega arith;
                    })));
              new_bytes = λ y. absurd cc;
              half = λ y.
                  let same : stream ≡ h.lap =
                    h.stream_split
                    ∙ ap (λ xs. xs ++ h.lap) (h.first_lap ((==_iff r.iteration 0).0 z)).1 in
                  inr (inr (sym same, omega (arith, ap length same, little)));
            }
            | inr z ↦
                let later : 0 < r.iteration = ground (arith, z) in
                let o = length h.lap + r.size / 2 in
                let written : r.writen_end + 1 - r.array_base ≡ r.size =
                  omega (arith, (h.later_lap later).0, h.base_pos) in
                record {
                  unread = drop o h.last ++ h.lap;
                  reads = rw e (
                      rw z (
                        inr (record {
                          o = o;
                          itteration = omega (arith, later);
                          data_block = omega (arith, ap (λ k. k / 2) written, h.current);
                          behind = omega arith;
                          inside = omega (arith, little);
                          rest = refl;
                          held = omega arith;
                        })));
                  new_bytes = λ y. absurd cc;
                  half = λ y. inr (
                      inl (
                        omega (
                          arith,
                          length-append (drop o h.last) h.lap,
                          length-drop o h.last,
                          h.last_length,
                          little,
                        )));
                }
          ]
    ]

-- A reader that joins without replay has nothing to read yet; one that replays has half a ring to read,
-- rounded down or up, or the whole stream where that is shorter than half a ring.
pub join-Reads :
    {stream : List ℕ} (r : Ring) (h : Holds r stream) (c : Context) (replay_half : Bool)
    → Joined r h c replay_half
join-Reads r h c true = join-replay r h c
join-Reads r h c false = join-now r h c
