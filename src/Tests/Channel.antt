-- ===== src/Tests/Channel.antt =====
-- src/channel: a pipe, and the theorems applied to it.
use plug_in_ml.Base.{
  ℕ, some, List, [], ◌∷◌, ◌++◌, ◌≡◌, refl, pos, negsuc, length, take, drop, true, false, arith,
}
use plug_in_ml.Channel.Fifo.{FileOps, Fifo}
use plug_in_ml.Channel.Fifo.Order.{IsPipe, signal_all, wait_all, in_pipe, wait_all-signal_all}

-- A pipe as its bytes.
abbrev pipe_ops : FileOps (List ℕ)
pipe_ops = record {
  open_file = λ name flag os. (pos 3, os);
  read = λ fd n os. (some (take n os), drop n os);
  write = λ fd bytes os. (some (length bytes), os ++ bytes);
  close = λ fd os. os;
}

abbrev reader : Fifo
reader = record { filename = []; is_reader = true; fd = pos 3 }

abbrev writer : Fifo
writer = record { filename = []; is_reader = false; fd = pos 4 }

pipe_ops-IsPipe : IsPipe pipe_ops (pos 3) (pos 4) 65536 (λ os. os)
pipe_ops-IsPipe = record { appends = λ bytes os h. refl; takes = λ n os h. (refl, refl) }

wait_all-signal_all_example :
    (os' : List ℕ) × (wait_all pipe_ops reader 3
        (signal_all pipe_ops writer (negsuc 6 ∷ pos 300 ∷ []) (in_pipe (pos 1 ∷ [])))
      ≡ (pos 1 ∷ negsuc 6 ∷ pos 300 ∷ [], os'))
    × (os' ≡ [])
wait_all-signal_all_example =
    wait_all-signal_all pipe_ops reader writer 65536 (λ os. os) (pos 1 ∷ [])
      (negsuc 6 ∷ pos 300 ∷ []) (in_pipe (pos 1 ∷ [])) pipe_ops-IsPipe refl
      ((omega arith, omega arith), tt)
      ((omega arith, omega arith), ((omega arith, omega arith), tt)) (omega arith)
