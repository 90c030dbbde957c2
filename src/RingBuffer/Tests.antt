-- ===== src/RingBuffer/Tests.antt =====
-- A ring of four bytes that holds three, its writer and a reader.
use libsxe.Base.{ℕ, ◌≡◌, refl, true, false, List, [], ◌∷◌, ◌++◌, some, inl, inr, arith, copy_at}
use libsxe.RingBuffer.{Ring, Context, ring_add, over_run, next_block, consumed, check_over_run}
use libsxe.RingBuffer.Write.{Holds}
use libsxe.RingBuffer.Add.{ring_add-Holds}
use libsxe.RingBuffer.Read.{Reads, GotBlock, next_block-Reads}
use libsxe.RingBuffer.Consume.{TakenOff, consumed-Reads}
use libsxe.RingBuffer.Join.{Joined, join-Reads}
use libsxe.RingBuffer.OverRun.{Added, ring_add-Follows, check_over_run-Reads}

abbrev three : Ring
three = record {
  array_base = 100;
  size = 4;
  iteration = 1;
  current = 103;
  writen_end = 103;
  bytes = 5 ∷ 6 ∷ 7 ∷ 4 ∷ [];
}

abbrev three_stream : List ℕ
three_stream = 1 ∷ 2 ∷ 3 ∷ 4 ∷ 5 ∷ 6 ∷ 7 ∷ []

abbrev three_Holds : Holds three three_stream
three_Holds = record {
  laps = 1 ∷ 2 ∷ 3 ∷ 4 ∷ [];
  last = 1 ∷ 2 ∷ 3 ∷ 4 ∷ [];
  lap = 5 ∷ 6 ∷ 7 ∷ [];
  base_pos = omega arith;
  stream_split = refl;
  last_length = refl;
  lap_length = omega arith;
  bytes = refl;
  current = refl;
  first_lap = λ z. absurd (omega (arith, z));
  later_lap = λ p. (refl, ([], refl));
}

-- A reader that has read two bytes of this lap, one that is at the last byte of the lap before, and one
-- at a byte of it that is written over.
abbrev reader : ℕ → ℕ → ℕ → Context
reader itteration data_block len = record {
  itteration = itteration;
  data_block = data_block;
  data_block_len = len;
  writable_block = 0;
  writable_block_len = 0;
}

abbrev near_Reads : Reads three three_Holds (reader 1 102 1) (7 ∷ [])
near_Reads = inl (record {
  o = 2;
  itteration = refl;
  data_block = refl;
  inside = omega arith;
  rest = refl;
  held = omega arith;
})

abbrev far_Reads : Reads three three_Holds (reader 0 103 1) (4 ∷ 5 ∷ 6 ∷ 7 ∷ [])
far_Reads = inr (record {
  o = 3;
  itteration = refl;
  data_block = refl;
  behind = omega arith;
  inside = omega arith;
  rest = refl;
  held = omega arith;
})

ring_add-Holds_example :
    (r' : Ring) × (ring_add three (8 ∷ 9 ∷ 10 ∷ []) 3 ≡ some r')
    × Holds r' (three_stream ++ (8 ∷ 9 ∷ 10 ∷ []))
ring_add-Holds_example =
    ring_add-Holds three three_stream (8 ∷ 9 ∷ 10 ∷ []) three_Holds (omega arith) (omega arith)

next_block-Reads_example : GotBlock three three_Holds (reader 0 103 1) (4 ∷ 5 ∷ 6 ∷ 7 ∷ [])
next_block-Reads_example =
    next_block-Reads three three_Holds (omega arith) (reader 0 103 1) (4 ∷ 5 ∷ 6 ∷ 7 ∷ []) far_Reads

consumed-Reads_example : TakenOff three three_Holds (reader 0 103 1) 1 (4 ∷ 5 ∷ 6 ∷ 7 ∷ [])
consumed-Reads_example =
    consumed-Reads three three_Holds (omega arith) (reader 0 103 1) (4 ∷ 5 ∷ 6 ∷ 7 ∷ []) 1
      (omega arith) (omega arith) far_Reads

join-Reads_example : Joined three three_Holds (reader 0 0 0) true
join-Reads_example = join-Reads three three_Holds (reader 0 0 0) true

ring_add-Follows_example :
    Added three three_Holds (reader 0 103 1) (4 ∷ 5 ∷ 6 ∷ 7 ∷ []) (8 ∷ 9 ∷ [])
ring_add-Follows_example =
    ring_add-Follows three three_Holds (reader 0 103 1) (4 ∷ 5 ∷ 6 ∷ 7 ∷ []) (8 ∷ 9 ∷ [])
      (omega arith) (omega arith) far_Reads

check_over_run-Reads_example :
    (next : Context) × (next_block three (reader 0 101 1) ≡ (false, next))
    × (check_over_run three (reader 0 101 1) ≡ (false, next))
    × Reads three three_Holds next []
unfolding over_run
check_over_run-Reads_example = check_over_run-Reads three three_Holds (reader 0 101 1) refl

-- The writer laps a reader, and the reader that is inside goes on.
test_added :
    ring_add three (8 ∷ 9 ∷ []) 2
    ≡ some (record three {
      iteration = 2;
      current = 101;
      writen_end = 103;
      bytes = 9 ∷ 6 ∷ 7 ∷ 8 ∷ [];
    })
unfolding ring_add copy_at
test_added = refl

test_consumed : consumed three (reader 0 103 1) 1 ≡ some (true, reader 1 100 0)
unfolding consumed over_run
test_consumed = refl
