-- ===== src/Buffer/Queue.antt =====
-- The promise of the class: a queue of bytes. Any sequence of operations behaves on the contents as
-- the same sequence on a plain list.
use solar_net.Base.{
  ℕ, ◌+◌, ◌^◌, ◌≤◌, ◌<◌, ◌≡◌, refl, ap, ◌∙◌, List, [], ◌∷◌, ◌++◌, arith, length, drop, take,
}
use solar_net.Buffer.{
  Buffer, IsValid, contents, ensure_writable_bytes, append, retrieve, retrieve_all, to_string_view,
}
use solar_net.Buffer.Space.{ensure_writable_bytes_lem, to_string_view-contents}
use solar_net.Buffer.Data.{append_lem, retrieve_lem, retrieve_all_lem}

-- `RetrieveAsString(len)`, also under the name `ReadString`: `substr` cuts at the end of the view.
pub retrieve_as_string : Buffer → ℕ → List ℕ × Buffer
retrieve_as_string b len = (take len (to_string_view b), retrieve b len)

pub retrieve_all_as_string : Buffer → List ℕ × Buffer
retrieve_all_as_string b = (to_string_view b, retrieve_all b)

-- A call of a client.
pub data Call : Type 0 where
  appends : List ℕ → Call
  retrieves : ℕ → Call
  reads : ℕ → Call
  reads_all : Call
  reserves : ℕ → Call

-- What a call asks of the memory.
abbrev pub demand : Call → ℕ
demand (appends xs) = length xs
demand (reserves n) = n
demand _ = 0

abbrev pub demands : List Call → ℕ
demands [] = 0
demands (c ∷ cs) = demand c + demands cs

-- A call on a buffer, with the string that it returns.
pub step : Buffer → Call → List ℕ × Buffer
unfolding retrieve_as_string retrieve_all_as_string
step b (appends xs) = ([], append b xs)
step b (retrieves n) = ([], retrieve b n)
step b (reads n) = retrieve_as_string b n
step b reads_all = retrieve_all_as_string b
step b (reserves n) = ([], ensure_writable_bytes b n)

pub run : Buffer → List Call → List (List ℕ) × List ℕ
run b [] = ([], contents b)
run b (c ∷ cs) = let (out, b') = step b c in let (outs, last) = run b' cs in (out ∷ outs, last)

-- The same calls on the queue of bytes.
abbrev pub queue_step : List ℕ → Call → List ℕ × List ℕ
queue_step q (appends xs) = ([], q ++ xs)
queue_step q (retrieves n) = ([], drop n q)
queue_step q (reads n) = (take n q, drop n q)
queue_step q reads_all = (q, [])
queue_step q (reserves n) = ([], q)

unfoldable pub queue_run : List ℕ → List Call → List (List ℕ) × List ℕ
queue_run q [] = ([], q)
queue_run q (c ∷ cs) =
    let (out, q') = queue_step q c in let (outs, last) = queue_run q' cs in (out ∷ outs, last)

-- One call: the result and the contents are the queue's, and the memory grows by the demand.
pub step_refines :
    (b : Buffer) (c : Call)
    → IsValid b
    → length b.bytes + demand c + 8 < 2 ^ 64
    → IsValid (step b c).1
      × ((step b c).0 ≡ (queue_step (contents b) c).0)
      × (contents (step b c).1 ≡ (queue_step (contents b) c).1)
      × (length (step b c).1.bytes ≤ length b.bytes + demand c)
unfolding step
step_refines b (appends xs) v h = let a = append_lem b xs v h in (a.0, refl, a.1, a.2)
step_refines b (retrieves n) v h =
    let r = retrieve_lem b n v in (r.0, refl, r.1, omega (arith, ap length r.2))
step_refines b (reads n) v h =
    let r = retrieve_lem b n v in
    (r.0, ap (take n) (to_string_view-contents b v), r.1, omega (arith, ap length r.2))
step_refines b reads_all v h =
    let r = retrieve_all_lem b v in
    (r.0, to_string_view-contents b v, r.1, omega (arith, ap length r.2))
step_refines b (reserves n) v h = let e = ensure_writable_bytes_lem b n v h in (e.0, refl, e.1, e.3)

-- No sequence of calls tells a valid buffer from the queue of its contents, as long as the memory
-- that the calls ask for can be addressed. A retrieval of more than there is empties both.
pub run_refines :
    (cs : List Call) (b : Buffer)
    → IsValid b
    → length b.bytes + demands cs + 8 < 2 ^ 64
    → run b cs ≡ queue_run (contents b) cs
unfolding run queue_run
run_refines [] b v h = refl
run_refines (c ∷ cs) b v h =
    let s = step_refines b c v (omega arith) in
    let rest =
      run_refines cs (step b c).1 s.0 (omega (arith, s.3)) ∙ ap (λ q. queue_run q cs) s.2 in
    λ i. (s.1 i ∷ (rest i).0, (rest i).1)
