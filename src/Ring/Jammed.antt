-- ===== src/Ring/Jammed.antt =====
-- project2/ringbuffer.c and project2/client.c: more threads than the buffer has entries.
use cs6210proj.Prelude.{
  ℕ, zero, suc, ◌≤◌, ◌<◌, ◌≡◌, refl, ◌∙◌, ℤ, pos, negsuc, none, some, get_elem?, ◌++◌, [],
  get_elem?-set_ne, get_elem?-replicate, arith,
}
use cs6210proj.Ring.Buffer.{
  Thread, RingBuffer, returned, blocked, next_write, write_request, take_response,
}
use cs6210proj.Ring.Requests.{
  IsValid, pending_count, after_write, write_request-room, after_write-IsValid, init-IsValid,
}
use cs6210proj.Ring.Threads.{
  asking, asked, listening, Processes, ProcessStep, ProcessReach, start_threads, write, refused,
  await, take, listen, wake, serve, rest, here, next, next_round, prime,
}
use cs6210proj.Ring.Threads

-- The threads 1 to `j` have written a request, and the others are about to.
record Filled (n j : ℕ) (s : Processes) : Type 0 where
  free : s.buffer.data_mutex ≡ none
  valid : IsValid s.buffer
  count : pending_count s.buffer ≡ j
  server : s.server ≡ listening
  results : s.results ≡ []
  first : get_elem? s.clients 0 ≡ some (asking 0)
  yet : (t : ℕ) → j < t → t < n → get_elem? s.clients t ≡ some (asking 0)

refused_by :
    (t : Thread) (x p : ℤ) (r : RingBuffer)
    → r.data_mutex ≡ none
    → pending_count r ≡ 128
    → write_request t x p r ≡ returned (negsuc 0) (record r { data_mutex = some t })
unfolding write_request
refused_by t x p r m h = ground arith

write_blocked :
    (u t : Thread) (x p : ℤ) (r : RingBuffer)
    → r.data_mutex ≡ some u
    → write_request t x p r ≡ blocked
unfolding write_request
write_blocked u t x p r m = rw (m, write_request) refl

take_blocked : (u t : Thread) (r : RingBuffer) → r.data_mutex ≡ some u → take_response t r ≡ blocked
unfolding take_response
take_blocked u t r m = rw (m, take_response) refl

module _ (pow2 : ℤ → ℤ) where
  -- With the mutex held, and a server that has not begun to serve, no call goes through.
  held_stuck :
      (u : Thread) (s t : Processes)
      → s.buffer.data_mutex ≡ some u
      → s.server ≡ listening
      → ¬ ProcessStep pow2 s t
  held_stuck u s _ m l (write t i k b e ran) =
      let stays = write_blocked u t (pos i) prime s.buffer m in cc
  held_stuck u s _ m l (refused t i b e ran) =
      let stays = write_blocked u t (pos i) prime s.buffer m in cc
  held_stuck u s _ m l (await t i k e free) = cc
  held_stuck u s _ m l (take t i k v earlier later b e awake ran) =
      let stays = take_blocked u t (record s.buffer { woken = earlier ++ later }) m in cc
  held_stuck u s _ m l (listen e free) = cc
  held_stuck u s _ m l (wake earlier later e awake free) = cc
  held_stuck u s _ m l (serve b e some_wait ran) = cc
  held_stuck u s _ m l (rest e none_wait) = cc

  module _ (n : ℕ) where
    fill :
        (j : ℕ)
        → j < n
        → j ≤ 128
        → (s : Processes) × ProcessReach pow2 (start_threads n) s × Filled n j s
    unfolding start_threads
    fill zero h k = (
      start_threads n,
      here,
      record {
        free = refl;
        valid = init-IsValid;
        count = omega arith;
        server = refl;
        results = refl;
        first = get_elem?-replicate n 0 (asking 0) h;
        yet = λ t lo l. get_elem?-replicate n t (asking 0) l;
      },
    )
    fill (suc j) h k =
        let (s, run, w) = fill j (omega arith) (omega arith) in
        let room : pending_count s.buffer < 128 = omega (arith, w.count) in
        let i : ℕ = (next_write s.buffer).response in
        let t : Processes =
          Threads.move (suc j) (asked 0 i) (after_write (suc j) (pos 0) prime s.buffer) s in
        (
          t,
          next run (
              write (suc j) 0 i _ (w.yet (suc j) (omega arith) (omega arith))
                (write_request-room (suc j) (pos 0) prime s.buffer w.free room)),
          record {
            free = refl;
            valid = after_write-IsValid (suc j) (pos 0) prime w.valid room;
            count = omega (arith, w.count, w.valid);
            server = w.server;
            results = w.results;
            first =
                get_elem?-set_ne s.clients (asked 0 i) (λ (e : suc j ≡ 0). omega arith) ∙ w.first;
            yet = λ m lo l.
                get_elem?-set_ne s.clients (asked 0 i) (λ (e : suc j ≡ m). omega arith)
                ∙ w.yet m (omega arith) l;
          },
        )

-- The loop of make_requests in more than 128 threads (main of client.c starts 128): there is a run behind
-- which 128 requests wait in the buffer and no result has been printed. The last call was thread 0's of
-- `write_request`, which returned -1 and left the mutex with the thread, and neither a thread nor the
-- server can take a step.
pub all_jammed :
    (pow2 : ℤ → ℤ) (n : ℕ)
    → 128 < n
    → (s : Processes) × ProcessReach pow2 (start_threads n) s
      × (pending_count s.buffer ≡ 128)
      × (s.results ≡ [])
      × ((b : RingBuffer) × (write_request 0 (pos 0) prime b ≡ returned (negsuc 0) s.buffer))
      × (s.buffer.data_mutex ≡ some 0)
      × ((t : Processes) → ¬ ProcessStep pow2 s t)
all_jammed pow2 n many =
    let (s, run, w) = fill pow2 n 128 (omega arith) (omega arith) in
    let held : RingBuffer = record s.buffer { data_mutex = some 0 } in
    let full = refused_by 0 (pos 0) prime s.buffer w.free w.count in
    (
      Threads.move 0 (next_round 0) held s,
      next run (refused 0 0 held w.first full),
      w.count,
      w.results,
      (s.buffer, full),
      refl,
      λ t step. held_stuck pow2 0 _ t refl w.server step,
    )
