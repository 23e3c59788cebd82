-- ===== src/Master/Cut.antt =====
-- src/master/task_config.cc: GeneratePartition and FixConfig, and what the nodes make of them.
use plug_in_ml.Base.{
  ℕ, zero, suc, ◌+◌, ◌-◌, ◌≤◌, ◌<◌, ◌≡◌, refl, sym, ap, ap₂, ◌∙◌, some, none, List, [], ◌∷◌, ◌++◌,
  ℤ, pos, ◌≤ℤ◌, ◌<ℤ◌, get_elem?, length, drop, drop-cons, All, arith, inl, inr, Option-cases,
  get_elem?-lt,
}
use plug_in_ml.Message.{Addr, Message, ConfigMessage, config_of}
use plug_in_ml.Partition.{Partition, read_array, initialize_array}
use plug_in_ml.Partition.Owner.{InRange, IsPartition}
use plug_in_ml.Agent.State.{Agent}
use plug_in_ml.Agent.Sort.{sort}
use plug_in_ml.Agent.Sort.Order.{length-sort, All-sort, sort-IsSorted}
use plug_in_ml.Agent.Configure.{extract_partition, reconfigurate}
use plug_in_ml.Master.TaskConfig.{TaskConfig, draws, generate_partition, to_message}

pub length-draws : (draw : ℕ → ℤ) (n i : ℕ) → length (draws draw n i) ≡ n
unfolding draws
length-draws draw zero i = refl
length-draws draw (suc n) i = ap suc (length-draws draw n (suc i))

pub All-draws :
    (P : ℤ → Type 0) (draw : ℕ → ℤ) → ((i : ℕ) → P (draw i)) → (n i : ℕ) → All P (draws draw n i)
unfolding draws
All-draws P draw h zero i = tt
All-draws P draw h (suc n) i = (h i, All-draws P draw h n (suc i))

read_array_all :
    (all xs : List ℤ) (i : ℕ) → drop i all ≡ xs → read_array i (length xs) all ≡ some xs
unfolding read_array
read_array_all all [] i e = refl
read_array_all all (x ∷ xs) i e =
    let here = drop-cons all i x xs e in rw (here.0, read_array_all all xs (suc i) here.1)

-- What a message takes over from the configuration.
pub record Copies (c : TaskConfig) (config : ConfigMessage) : Type 0 where
  pub same_partition : config.partition ≡ c.partition
  pub same_servers : config.server_id ≡ c.server_id
  pub same_agents : config.worker_id ≡ c.agent_id
  pub same_server_num : config.server_num ≡ c.server_num
  pub same_key_range : config.key_range ≡ c.key_range

pub to_message-Copies :
    (c : TaskConfig) (config : ConfigMessage) → to_message c ≡ some config → Copies c config
unfolding to_message
to_message-Copies c config e = record {
  same_partition = ground (arith, e);
  same_servers = ground (arith, e);
  same_agents = ground (arith, e);
  same_server_num = ground (arith, e);
  same_key_range = ground (arith, e);
}

-- A first `GeneratePartition` with at least one server and draws from [1, key_range - 2]: what a
-- node then reads of the partition, one element for each server, is ascending and lies in the key
-- range, so `GetServerByKey` finds an owner for every key.
pub generate_partition-IsPartition :
    (draw : ℕ → ℤ) (c : TaskConfig) (config : ConfigMessage)
    → c.partition ≡ []
    → 0 < c.server_num
    → ((i : ℕ) → (pos 1 ≤ℤ draw i) × (draw i <ℤ pos (c.key_range - 1)))
    → to_message (generate_partition draw c) ≡ some config
    → (p : Partition) × (extract_partition config config.server_num ≡ some p)
      × IsPartition p
      × (p.key_range ≡ c.key_range)
      × All (InRange c.key_range) p.part_vec
unfolding generate_partition extract_partition initialize_array
generate_partition-IsPartition draw c config empty some_server drawn e =
    let same = to_message-Copies (generate_partition draw c) config e in
    let cut = sort (draws draw c.server_num 0) in
    let cut_length : length cut ≡ c.server_num =
      length-sort (draws draw c.server_num 0) ∙ length-draws draw c.server_num 0 in
    let is_cut : config.partition ≡ cut =
      same.same_partition ∙ ap (λ l. sort (l ++ draws draw c.server_num 0)) empty in
    let count : length cut ≡ config.server_num = cut_length ∙ sym same.same_server_num in
    let read : read_array 0 config.server_num config.partition ≡ some cut =
      ap₂ (λ n v. read_array 0 n v) (sym count) is_cut ∙ read_array_all cut cut 0 refl in
    let again : read_array 0 config.server_num cut ≡ some cut =
      ap (λ n. read_array 0 n cut) (sym count) ∙ read_array_all cut cut 0 refl in
    (
      record { key_range = config.key_range; server_num = config.server_num; part_vec = cut },
      rw (read, again),
      record {
        sized = count;
        served = omega (arith, same.same_server_num);
        sorted = sort-IsSorted (draws draw c.server_num 0);
      },
      same.same_key_range,
      All-sort (InRange c.key_range) (draws draw c.server_num 0) (
          All-draws (InRange c.key_range) draw
            (λ i. (omega (arith, drawn i), omega (arith, drawn i))) c.server_num 0),
    )

read_array_short :
    (n i : ℕ) (xs : List ℤ) → length xs < i + n → i ≤ length xs → read_array i n xs ≡ none
unfolding read_array
read_array_short zero i xs h k = absurd (omega arith)
read_array_short (suc n) i xs h k = elim (Option-cases (get_elem? xs i)) [
  | inl stop ↦ rw stop
  | inr (x, here) ↦
      rw (here, read_array_short n (suc i) xs (omega arith) (get_elem?-lt xs i x here))
]

-- `Reconfigurate` fails on every configuration whose partition has no more elements than there are
-- servers, as all that the master makes have: it reads one element behind the last.
pub reconfigurate_reads_past :
    {F : Type 0} (zmq_close : Addr → ℤ) (msg : Message F) (agent : Agent F)
    → length (config_of msg).partition ≤ (config_of msg).server_num
    → reconfigurate zmq_close msg agent ≡ none
unfolding reconfigurate extract_partition
reconfigurate_reads_past zmq_close msg agent h =
    ground (arith, read_array_short (suc (config_of msg).server_num) 0 (config_of msg).partition)
