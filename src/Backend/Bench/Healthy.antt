-- ===== src/Backend/Bench/Healthy.antt =====
-- backend/app/services/benchmark_service.py on the server of cpp_core/src/server.cpp: no call fails.
use Prim.Native.String.{String}
use text.Mathlib.TextLemmas.{cons-ne-nil}
use quark_cache.Common.{
  ℕ, zero, suc, ◌-◌, ◌≡◌, ◌⊎◌, inl, inr, refl, sym, ap, ◌∙◌, true, false, List, [], ◌∷◌, In, All,
  length, Bool-cases, All-append,
}
use quark_cache.Common.Text.{show}
use quark_cache.Engine.Promise.{Recency, Shows}
use quark_cache.Server.{Server, is_blank}
use quark_cache.Server.Wire.{IsToken, NoBlank-append}
use quark_cache.Server.Ttl.{show-IsToken}
use quark_cache.Backend.Deployed.{deployed}
use quark_cache.Backend.Deployed.Line.{append-ne_nil}
use quark_cache.Backend.Bench.{
  Op, timed_op, in_turn, batches, batch_size, errors_of, bench_key, writes, reads, operations,
  run_benchmark,
}
use quark_cache.Backend.Bench.Batches.{served, run_batches-in_turn, served-All}
use quark_cache.Backend.Deployed.Fine.{HasCache, get_key-IsFine, set_key-IsFine}

-- An operation on words.
abbrev pub IsWordOp : Op → Type 0
IsWordOp op = IsToken op.key × ((op.is_read ≡ true) ⊎ IsToken op.value)

timed_op-healthy :
    (t0 t1 : ℕ) (op : Op) (v : Server)
    → IsWordOp op
    → HasCache v
    → ((timed_op deployed t0 t1 op v).0.1 ≡ false) × HasCache (timed_op deployed t0 t1 op v).1
unfolding timed_op
timed_op-healthy t0 t1 op v (key, value) h = elim (Bool-cases op.is_read) [
  | inl e ↦ rw e (get_key-IsFine v op.key key h)
  | inr e ↦ elim value [
    | inl r ↦ let q : true ≡ false = sym r ∙ e in cc
    | inr w ↦ rw e (set_key-IsFine v op.key op.value key w h)
  ]
]

in_turn-healthy :
    (clock : ℕ → ℕ × ℕ) (i : ℕ) (ops : List Op) (v : Server)
    → All IsWordOp ops
    → HasCache v
    → errors_of (in_turn deployed clock i ops v).0 ≡ 0
unfolding in_turn errors_of
in_turn-healthy clock i [] v h c = refl
in_turn-healthy clock i (op ∷ ops) v (w, h) c =
    let (fine, kept) = timed_op-healthy (clock i).0 (clock i).1 op v w c in
    rw fine (in_turn-healthy clock (suc i) ops _ h kept)

bench_key-IsToken : (i : ℕ) → IsToken (bench_key i)
unfolding is_blank
bench_key-IsToken i = (
  NoBlank-append "bench:" (show i) (refl, (refl, (refl, (refl, (refl, (refl, tt))))))
      (show-IsToken i).0,
  append-ne_nil "bench:" (show i) (cons-ne-nil _ _),
)

writes-IsWordOp :
    (n : ℕ) (choice : ℕ → ℕ × String)
    → ((i : ℕ) → IsToken (choice i).1)
    → All IsWordOp (writes n choice)
unfolding writes
writes-IsWordOp zero choice h = tt
writes-IsWordOp (suc n) choice h =
    ((bench_key-IsToken (choice n).0, inr (h n)), writes-IsWordOp n choice h)

reads-IsWordOp : (n : ℕ) (choice : ℕ → ℕ) → All IsWordOp (reads n choice)
unfolding reads
reads-IsWordOp zero choice = tt
reads-IsWordOp (suc n) choice = ((bench_key-IsToken (choice n), inl refl), reads-IsWordOp n choice)

All-In : (P : Op → Type 0) (ops : List Op) (op : Op) → All P ops → In op ops → P op
All-In P [] op h i = absurd i
All-In P (x ∷ ops) op (p, h) (inl e) = rw e p
All-In P (x ∷ ops) op (p, h) (inr i) = All-In P ops op h i

All-of_In :
    (P : Op → Type 0) (ops made : List Op) → All P made → All (λ op. In op made) ops → All P ops
All-of_In P [] made h k = tt
All-of_In P (op ∷ ops) made h (i, k) = (All-In P made op h i, All-of_In P ops made h k)

-- A benchmark whose values are words reports no errors on a server with a well-formed cache whose replies
-- come whole, whatever keys and values are chosen, however its operations are shuffled, and in whatever
-- order those of a batch are served.
pub run_benchmark-errors :
    (rounded : ℕ → ℕ) (order : ℕ → List Op → List Op) (clock : ℕ → ℕ × ℕ) (num_ops num_read : ℕ)
    (write_choice : ℕ → ℕ × String) (read_choice : ℕ → ℕ) (shuffled : List Op) (v : Server)
    (rs : Recency)
    → ((i : ℕ) → IsToken (write_choice i).1)
    → All (λ op. In op (operations num_ops num_read write_choice read_choice)) shuffled
    → ((i : ℕ) (b : List Op) → All (λ op. In op b) (order i b))
    → Shows v.store.lru rs
    → (run_benchmark rounded deployed order clock num_ops shuffled v).0.errors ≡ 0
unfolding run_benchmark operations
run_benchmark-errors rounded order clock num_ops num_read write_choice read_choice shuffled v rs
      words made kept shows =
    let bs = batches (length shuffled) batch_size shuffled in
    let all =
      All-append IsWordOp (writes (num_ops - num_read) write_choice) (reads num_read read_choice)
        (writes-IsWordOp (num_ops - num_read) write_choice words)
        (reads-IsWordOp num_read read_choice) in
    ap (λ r. errors_of r.0) (run_batches-in_turn deployed clock order 0 bs v)
    ∙ in_turn-healthy clock 0 (served deployed clock order 0 bs) v
        (served-All deployed clock order IsWordOp
          (λ i b h. All-of_In IsWordOp (order i b) b h (kept i b)) (length shuffled) 0 shuffled
          (All-of_In IsWordOp shuffled _ all made))
        (rs, shows)
