-- ===== src/RingBuffer/OverRun.antt =====
-- sxe_ring_buffer_add and a reader, and the move of a reader that is over run.
use libsxe.Base.{
  ℕ, ◌+◌, ◌^◌, ◌≤◌, ◌<◌, ◌≡◌, refl, ap, sym, ◌∙◌, true, false, List, [], ◌++◌, some, ◌==◌,
  Bool-cases, inl, inr, arith, length, length-append, drop_all, append_assoc,
}
use libsxe.RingBuffer.{Ring, Context, end, advance, over_run, ring_add, check_over_run, next_block}
use libsxe.RingBuffer.Write.{Holds, appended, appended-Holds}
use libsxe.RingBuffer.Add.{InTwo, appended-two, ring_add-cases}
use libsxe.RingBuffer.Read.{Reads}
use libsxe.RingBuffer.Follow.{inside-Words, Follows, appended-Follows}

-- A write that does not fill the array leaves a reader over run that is over run.
over_run-appended :
    (r : Ring) (buf : List ℕ) (c : Context)
    → r.current + length buf < end r + 1
    → over_run r c ≡ true
    → over_run (appended r buf) c ≡ true
unfolding over_run
over_run-appended r buf c e o =
    let words = inside-Words r buf e in ground (arith, o, words.iteration, words.current)

-- What `ring_add` gives to a reader.
pub record Added {stream : List ℕ} (r : Ring) (h : Holds r stream) (c : Context)
    (unread buf : List ℕ) : Type 0 where
  pub next : Ring
  pub added : ring_add r buf (length buf) ≡ some next
  pub same_size : next.size ≡ r.size
  pub holds : Holds next (stream ++ buf)
  pub follows : Follows next holds c unread buf

appended-size : (r : Ring) (buf : List ℕ) → (appended r buf).size ≡ r.size
unfolding advance
appended-size r buf = elim (Bool-cases (r.current + length buf == end r + 1)) [
  | inl e ↦ rw e refl
  | inr e ↦ rw e refl
]

appended-Follows_two :
    {stream : List ℕ} (r : Ring) (h : Holds r stream) (c : Context) (unread buf : List ℕ)
    → (two : InTwo r buf)
    → (holds : Holds (appended (appended r two.first) two.second) (stream ++ buf))
    → r.iteration + 3 < 2 ^ 32
    → Reads r h c unread
    → Follows (appended (appended r two.first) two.second) holds c unread buf
appended-Follows_two {stream} r h c unread buf two holds i reads =
    let r' = appended r two.first in
    let held = appended-Holds r stream two.first h (omega (arith, i)) (omega (arith, two.full)) in
    let parts : length two.first + length two.second ≡ length buf =
      omega (arith, length-append two.first two.second, ap length two.parts) in
    let size = appended-size r' two.second in
    let whole : (unread ++ two.first) ++ two.second ≡ unread ++ buf =
      append_assoc unread two.first two.second ∙ ap (λ xs. unread ++ xs) two.parts in
    elim (appended-Follows r two.first h held (omega (arith, i)) c unread (omega (arith, two.full))
      reads) [
        | inl p ↦
            elim (appended-Follows r' two.second held holds (omega (arith, i, two.iteration)) c
              (unread ++ two.first) (omega (arith, two.room)) p.1) [
                | inl q ↦
                    inl (
                      omega (arith, q.0, parts, length-append unread two.first),
                      rw (sym whole) q.1,
                    )
                | inr q ↦ inr (omega (arith, q.0, parts, length-append unread two.first), q.1)
              ]
        | inr p ↦
            inr (omega (arith, p.0, parts, size), over_run-appended r' two.second c two.room p.1)
      ]

-- A write of at most the size of the ring, in its first laps (fewer than 2 ^ 32 - 3), does one of two
-- things to a reader: where its unread bytes and the new ones fit in the ring together, it has just these
-- to read, in order; where they do not, it is found over run.
pub ring_add-Follows :
    {stream : List ℕ} (r : Ring) (h : Holds r stream) (c : Context) (unread buf : List ℕ)
    → r.iteration + 3 < 2 ^ 32
    → length buf ≤ r.size
    → Reads r h c unread
    → Added r h c unread buf
ring_add-Follows {stream} r h c unread buf i s reads =
    elim (ring_add-cases r buf h (omega (arith, i)) s) [
      | inl one ↦
          let holds = appended-Holds r stream buf h (omega (arith, i)) one.fits in
          record {
            next = appended r buf;
            added = one.added;
            same_size = appended-size r buf;
            holds = holds;
            follows = appended-Follows r buf h holds (omega (arith, i)) c unread one.fits reads;
          }
      | inr two ↦
          let held =
            appended-Holds r stream two.first h (omega (arith, i)) (omega (arith, two.full)) in
          let holds = appended-two r stream buf two held (omega (arith, i)) in
          record {
            next = appended (appended r two.first) two.second;
            added = two.added;
            same_size = appended-size (appended r two.first) two.second ∙ two.same_size;
            holds = holds;
            follows = appended-Follows_two r h c unread buf two holds i reads;
          }
    ]

-- A reader that is over run is told so, by a check and by the call for the next block, and has then just
-- what is written next to read.
pub check_over_run-Reads :
    {stream : List ℕ} (r : Ring) (h : Holds r stream) (c : Context)
    → over_run r c ≡ true
    → (next : Context) × (next_block r c ≡ (false, next))
      × (check_over_run r c ≡ (false, next))
      × Reads r h next []
unfolding check_over_run next_block
check_over_run-Reads r h c o = (
  record c { data_block = r.current; itteration = r.iteration; data_block_len = 0 },
  rw o refl,
  rw o refl,
  inl (record {
    o = length h.lap;
    itteration = refl;
    data_block = h.current;
    inside = omega arith;
    rest = sym (drop_all (length h.lap) h.lap (omega arith));
    held = omega arith;
  }),
)
