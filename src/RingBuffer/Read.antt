-- ===== src/RingBuffer/Read.antt =====
-- The reader of lib-sxe-ring-buffer/sxe-ring-buffer.c: what a context has still to read of the stream.
use libsxe.Base.{
  ℕ, ◌+◌, ◌-◌, ◌%◌, ◌^◌, ◌≤◌, ◌<◌, ◌≡◌, ◌⊎◌, refl, ap, sym, ◌∙◌, true, false, ◌&&◌, List, [], ◌++◌,
  ◌==◌, ltb, le-or-gt, inl, inr, arith, length, take, drop, length-drop, take-append,
  drop-append_ge, drop-append_le, drop-drop, drop_all, take_all, append-nil,
}
use libsxe.RingBuffer.{Ring, Context, over_run, next_block, block}
use libsxe.RingBuffer.Write.{Holds}

-- The context is `o` bytes into the lap that the writer is in.
pub record SameLap {stream : List ℕ} (r : Ring) (h : Holds r stream) (c : Context) (unread : List ℕ)
    : Type 0 where
  pub o : ℕ
  pub itteration : c.itteration ≡ r.iteration
  pub data_block : c.data_block ≡ r.array_base + o
  pub inside : o ≤ length h.lap
  pub rest : unread ≡ drop o h.lap
  pub held : c.data_block_len ≤ length h.lap - o

-- The context is `o` bytes into the lap before, at bytes that are not written over yet.
pub record PreviousLap {stream : List ℕ} (r : Ring) (h : Holds r stream) (c : Context)
    (unread : List ℕ) : Type 0 where
  pub o : ℕ
  pub itteration : c.itteration + 1 ≡ r.iteration
  pub data_block : c.data_block ≡ r.array_base + o
  pub behind : length h.lap ≤ o
  pub inside : o < r.size
  pub rest : unread ≡ drop o h.last ++ h.lap
  pub held : c.data_block_len ≤ r.size - o

-- What the context has still to read is `unread`.
abbrev pub Reads : {stream : List ℕ} (r : Ring) → Holds r stream → Context → List ℕ → Type 0
Reads r h c unread = SameLap r h c unread ⊎ PreviousLap r h c unread

module _ {stream : List ℕ} (r : Ring) (h : Holds r stream) where
  pub lap-bytes : h.lap ≡ take (r.current - r.array_base) r.bytes
  lap-bytes =
      let at : r.current - r.array_base ≡ length h.lap = omega (arith, h.current) in
      sym (
        ap (λ bs. take (r.current - r.array_base) bs) h.bytes
        ∙ ap (λ k. take k (h.lap ++ drop (length h.lap) h.last)) at
        ∙ take-append h.lap (drop (length h.lap) h.last))

  -- The array from `o` on, in this lap and in the last one.
  bytes-SameLap :
      (o : ℕ) → o ≤ length h.lap → take (length h.lap - o) (drop o r.bytes) ≡ drop o h.lap
  bytes-SameLap o f =
      let n : length h.lap - o ≡ length (drop o h.lap) = sym (length-drop o h.lap) in
      ap (λ bs. take (length h.lap - o) (drop o bs)) h.bytes
      ∙ ap (λ bs. take (length h.lap - o) bs)
          (drop-append_le o h.lap (drop (length h.lap) h.last) f)
      ∙ ap (λ k. take k (drop o h.lap ++ drop (length h.lap) h.last)) n
      ∙ take-append (drop o h.lap) (drop (length h.lap) h.last)

  pub drop-PreviousLap : (o : ℕ) → length h.lap ≤ o → drop o r.bytes ≡ drop o h.last
  drop-PreviousLap o f =
      let n : length h.lap + (o - length h.lap) ≡ o = omega (arith, f) in
      ap (λ bs. drop o bs) h.bytes
      ∙ drop-append_ge o h.lap (drop (length h.lap) h.last) f
      ∙ drop-drop (o - length h.lap) (length h.lap) h.last
      ∙ ap (λ k. drop k h.last) n

  bytes-PreviousLap :
      (o : ℕ) → length h.lap ≤ o → take (r.size - o) (drop o r.bytes) ≡ drop o h.last
  bytes-PreviousLap o f =
      ap (λ bs. take (r.size - o) bs) (drop-PreviousLap o f)
      ∙ take_all (r.size - o) (drop o h.last) (omega (arith, length-drop o h.last, h.last_length))

  -- What next_block gives: a block that the unread bytes begin with, empty only where there are none.
  pub record GotBlock (c : Context) (unread : List ℕ) : Type 0 where
    pub next : Context
    pub result : next_block r c ≡ (true, next)
    pub reads : Reads r h next unread
    pub later : List ℕ
    pub parts : unread ≡ block r next ++ later
    pub block_length : length (block r next) ≡ next.data_block_len
    pub none_left : next.data_block_len ≡ 0 → unread ≡ []

module _ {stream : List ℕ} (r : Ring) (h : Holds r stream) (i : r.iteration + 1 < 2 ^ 32) where
  pub over_run-SameLap :
      (c : Context) (unread : List ℕ) → SameLap r h c unread → over_run r c ≡ false
  unfolding over_run
  over_run-SameLap c unread s = ground (arith, i, s.itteration)

  pub over_run-PreviousLap :
      (c : Context) (unread : List ℕ) → PreviousLap r h c unread → over_run r c ≡ false
  unfolding over_run
  over_run-PreviousLap c unread s =
      ground (arith, i, s.itteration, s.data_block, s.behind, h.current)

  pub Reads-over_run : (c : Context) (unread : List ℕ) → Reads r h c unread → over_run r c ≡ false
  Reads-over_run c unread (inl s) = over_run-SameLap c unread s
  Reads-over_run c unread (inr s) = over_run-PreviousLap c unread s

  next_block-some :
      (c : Context) (unread : List ℕ) (s : SameLap r h c unread)
      → s.o < length h.lap
      → GotBlock r h c unread
  unfolding next_block
  next_block-some c unread s f =
      let calm = over_run-SameLap c unread s in
      let behind : ltb c.data_block r.current ≡ true = ground (arith, f, s.data_block, h.current) in
      let len : r.current - c.data_block ≡ length h.lap - s.o =
        omega (arith, s.data_block, h.current, s.inside) in
      let at : c.data_block - r.array_base ≡ s.o = omega (arith, s.data_block) in
      let next = record c { data_block_len = r.current - c.data_block } in
      let whole : block r next ≡ unread =
        ap (λ k. take k (drop (c.data_block - r.array_base) r.bytes)) len
        ∙ ap (λ k. take (length h.lap - s.o) (drop k r.bytes)) at
        ∙ bytes-SameLap r h s.o s.inside
        ∙ sym s.rest in
      record {
        next = next;
        result = rw calm (rw behind refl);
        reads = inl (record {
          o = s.o;
          itteration = s.itteration;
          data_block = s.data_block;
          inside = s.inside;
          rest = s.rest;
          held = omega (arith, len);
        });
        later = [];
        parts = sym whole ∙ sym (append-nil (block r next));
        block_length =
            ap length whole ∙ ap length s.rest ∙ omega (arith, length-drop s.o h.lap, len);
        none_left = λ z. absurd (omega (arith, z, len, f));
      }

  next_block-none :
      (c : Context) (unread : List ℕ) (s : SameLap r h c unread)
      → s.o ≡ length h.lap
      → GotBlock r h c unread
  unfolding next_block
  next_block-none c unread s f =
      let calm = over_run-SameLap c unread s in
      let behind : ltb c.data_block r.current ≡ false =
        ground (arith, f, s.data_block, h.current) in
      let same : (r.iteration == (c.itteration + 1) % 2 ^ 32) ≡ false =
        ground (arith, i, s.itteration) in
      let now : ltb c.itteration r.iteration ≡ false = ground (arith, s.itteration) in
      let empty : unread ≡ [] = s.rest ∙ drop_all s.o h.lap (omega (arith, f)) in
      let no_block : c.data_block_len ≡ 0 = omega (arith, s.held, f) in
      let nothing : block r c ≡ [] =
        ap (λ k. take k (drop (c.data_block - r.array_base) r.bytes)) no_block in
      record {
        next = c;
        result = rw calm (rw behind (rw same (rw now refl)));
        reads = inl s;
        later = [];
        parts = empty ∙ ap (λ bs. bs ++ []) (sym nothing);
        block_length = ap length nothing ∙ sym no_block;
        none_left = λ z. empty;
      }

  next_block-previous :
      (c : Context) (unread : List ℕ) (s : PreviousLap r h c unread) → GotBlock r h c unread
  unfolding next_block
  next_block-previous c unread s =
      let later = h.later_lap (omega (arith, s.itteration)) in
      let calm = over_run-PreviousLap c unread s in
      let behind : ltb c.data_block r.current ≡ false =
        ground (arith, s.behind, s.data_block, h.current) in
      let not_end : (r.writen_end + 1 == c.data_block) ≡ false =
        ground (arith, s.data_block, later.0, s.inside, h.base_pos) in
      let skip : (r.iteration == (c.itteration + 1) % 2 ^ 32 && r.writen_end + 1 == c.data_block)
          ≡ false =
        ground (arith, not_end) in
      let before : ltb c.itteration r.iteration ≡ true = ground (arith, s.itteration) in
      let len : r.writen_end + 1 - c.data_block ≡ r.size - s.o =
        omega (arith, s.data_block, later.0, s.inside, h.base_pos) in
      let at : c.data_block - r.array_base ≡ s.o = omega (arith, s.data_block) in
      let next = record c { data_block_len = r.writen_end + 1 - c.data_block } in
      let first : block r next ≡ drop s.o h.last =
        ap (λ k. take k (drop (c.data_block - r.array_base) r.bytes)) len
        ∙ ap (λ k. take (r.size - s.o) (drop k r.bytes)) at
        ∙ bytes-PreviousLap r h s.o s.behind in
      record {
        next = next;
        result = rw calm (rw behind (rw skip (rw before refl)));
        reads = inr (record {
          o = s.o;
          itteration = s.itteration;
          data_block = s.data_block;
          behind = s.behind;
          inside = s.inside;
          rest = s.rest;
          held = omega (arith, len);
        });
        later = h.lap;
        parts = s.rest ∙ ap (λ bs. bs ++ h.lap) (sym first);
        block_length = ap length first ∙ omega (arith, length-drop s.o h.last, len, h.last_length);
        none_left = λ z. absurd (omega (arith, z, len, s.inside));
      }

  -- A reader that has `unread` to read, and so is not over run, gets a block with which these bytes begin,
  -- still has them to read, and gets an empty block only where there are none.
  pub next_block-Reads :
      (c : Context) (unread : List ℕ) → Reads r h c unread → GotBlock r h c unread
  next_block-Reads c unread (inl s) = elim (le-or-gt (length h.lap) s.o) [
    | inl f ↦ next_block-none c unread s (omega (arith, f, s.inside))
    | inr f ↦ next_block-some c unread s f
  ]
  next_block-Reads c unread (inr s) = next_block-previous c unread s
