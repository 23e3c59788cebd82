-- ===== src/Master/Start.antt =====
-- src/master/master.cc, MainLoop: what follows the registration that makes the cluster ready.
pub mod Delivered
use plug_in_ml.Base.{
  ℕ, zero, suc, ◌+◌, ◌≤◌, ◌<◌, ◌≡◌, refl, sym, ap, ap₂, ◌∙◌, true, false, Option, some, none, List,
  [], ◌∷◌, ◌++◌, map, ℤ, pos, ◌+ℤ◌, ◌==ℤ◌, ==ℤ_refl, get_elem?, length, All, All-get_elem?, lookup,
  insert, lookup-insert_new, lookup-insert_other, lookup-insert_old, ◌>>=◌, if◌then◌else◌, arith,
  Bool-cases, inl, inr,
}
use plug_in_ml.Message.{Addr, Message, ConfigMessage}
use plug_in_ml.Communicator.{Sender, add_id_addr, send}
use plug_in_ml.Text.{print_nat, read_nat, get_line}
use plug_in_ml.Text.Laws.{read_nat-print_nat_end}
use plug_in_ml.Text.Lines.{Without, get_line_lem, get_line_last, print_nat_no_colon}
use plug_in_ml.Master.TaskConfig.{TaskConfig, join_addr}
use plug_in_ml.Master.State.{Master, max_cluster_node}
use plug_in_ml.Master.Loop.{heartbeat_addr, add_node_addresses}
use plug_in_ml.Master.Numbered.{numbered}

-- An address as nodes register it: an IP without a colon, a colon and a port.
pub record IsAddr (addr : Addr) : Type 0 where
  pub ip : Addr
  pub port : ℕ
  pub joined : addr ≡ ip ++ 58 ∷ print_nat port
  pub no_colon : Without 58 ip
  pub small : port < 65536

join_addr_lem :
    {addr : Addr} (a : IsAddr addr)
    → join_addr a.ip (a.port + 1) ≡ a.ip ++ 58 ∷ print_nat (a.port + 1)
unfolding join_addr
join_addr_lem a = refl

heartbeat_addr_lem :
    (addr : Addr) (a : IsAddr addr) → heartbeat_addr addr ≡ some (join_addr a.ip (a.port + 1))
unfolding heartbeat_addr join_addr
heartbeat_addr_lem addr a =
    let first = ap (get_line 58) a.joined ∙ get_line_lem 58 a.ip (print_nat a.port) a.no_colon in
    let second = get_line_last 58 (print_nat a.port) (print_nat_no_colon a.port) in
    let number = read_nat-print_nat_end a.port (omega (arith, a.small)) in
    rw (first, second, number) refl

-- The two ids of each node from `k` to `stop` are unknown.
abbrev Unknown : ℕ → ℕ → List (ℤ × Addr) → Type 0
Unknown k stop table =
    (j : ℕ)
    → k ≤ j
    → j < stop
    → (lookup (pos j) table ≡ none) × (lookup (pos (j + max_cluster_node)) table ≡ none)

module _ {M : Type 0} where
  add_id_addr_lem :
      (id : ℤ) (addr : Addr) (c : Sender M)
      → lookup id c.id_to_addr ≡ none
      → (add_id_addr id addr c).1 ≡ record c { id_to_addr = insert id addr c.id_to_addr }
  unfolding add_id_addr
  add_id_addr_lem id addr c e = rw (add_id_addr, e) refl

-- The table of a sender after node `k` has been added.
abbrev with_node : ℕ → Addr → Addr → List (ℤ × Addr) → List (ℤ × Addr)
with_node k addr beat table = insert (pos (k + max_cluster_node)) beat (insert (pos k) addr table)

module _ (k : ℕ) (addr beat : Addr) (table : List (ℤ × Addr)) where
  with_node-Unknown :
      (stop : ℕ)
      → stop ≤ max_cluster_node
      → Unknown k stop table
      → Unknown (suc k) stop (with_node k addr beat table)
  with_node-Unknown stop limit unknown j lo hi =
      let old = unknown j (omega arith) hi in
      (
        lookup-insert_other (pos (k + max_cluster_node)) (pos j) beat (insert (pos k) addr table)
              (ground arith)
            ∙ lookup-insert_other (pos k) (pos j) addr table (ground arith)
            ∙ old.0,
        lookup-insert_other (pos (k + max_cluster_node)) (pos (j + max_cluster_node)) beat
              (insert (pos k) addr table) (ground arith)
            ∙ lookup-insert_other (pos k) (pos (j + max_cluster_node)) addr table (ground arith)
            ∙ old.1,
      )

  with_node_old :
      (x : ℤ) (a : Addr) → lookup x table ≡ some a → lookup x (with_node k addr beat table) ≡ some a
  with_node_old x a e =
      lookup-insert_old (pos (k + max_cluster_node)) x beat a (insert (pos k) addr table)
        (lookup-insert_old (pos k) x addr a table e)

  second_unknown :
      lookup (pos (k + max_cluster_node)) table ≡ none
      → lookup (pos (k + max_cluster_node)) (insert (pos k) addr table) ≡ none
  second_unknown e =
      lookup-insert_other (pos k) (pos (k + max_cluster_node)) addr table (ground arith) ∙ e

  with_node_new :
      lookup (pos k) table ≡ none
      → lookup (pos (k + max_cluster_node)) table ≡ none
      → (lookup (pos k) (with_node k addr beat table) ≡ some addr)
        × (lookup (pos (k + max_cluster_node)) (with_node k addr beat table) ≡ some beat)
  with_node_new e f = (
    lookup-insert_old (pos (k + max_cluster_node)) (pos k) beat addr (insert (pos k) addr table)
        (lookup-insert_new (pos k) addr table e),
    lookup-insert_new (pos (k + max_cluster_node)) beat (insert (pos k) addr table)
        (second_unknown f),
  )

-- A table has, for the nodes `k`, `k + 1`, …, the address under the node's id and, under that id
-- and `max_cluster_node` more, the same IP with the port after it.
pub Knows : ℕ → (addrs : List Addr) → All IsAddr addrs → List (ℤ × Addr) → Type 0
Knows k [] good table = Unit
Knows k (addr ∷ addrs) good table =
    (lookup (pos k) table ≡ some addr)
    × (lookup (pos (k + max_cluster_node)) table
        ≡ some (good.0.ip ++ 58 ∷ print_nat (good.0.port + 1)))
    × Knows (suc k) addrs good.1 table

beat_id : (k : ℕ) → pos k +ℤ pos max_cluster_node ≡ pos (k + max_cluster_node)
unfolding ◌+ℤ◌
beat_id k = ground arith

module _ {F : Type 0} where
  add_two :
      (k : ℕ) (addr beat : Addr) (rest : List (ℤ × Addr)) (c : Sender (Message F))
      → heartbeat_addr addr ≡ some beat
      → lookup (pos k) c.id_to_addr ≡ none
      → lookup (pos (k + max_cluster_node)) c.id_to_addr ≡ none
      → add_node_addresses ((pos k, addr) ∷ rest) c
        ≡ add_node_addresses rest (record c { id_to_addr = with_node k addr beat c.id_to_addr })
  unfolding add_node_addresses
  add_two k addr beat rest c b e f =
      let one = add_id_addr_lem (pos k) addr c e in
      let two =
        add_id_addr_lem (pos (k + max_cluster_node)) beat
          (record c { id_to_addr = insert (pos k) addr c.id_to_addr })
          (second_unknown k addr beat c.id_to_addr f) in
      rw (b, one, beat_id k, two) refl

  add_node_addresses-Knows :
      (k stop : ℕ) (addrs : List Addr) (c : Sender (Message F))
      → k + length addrs ≡ stop
      → stop ≤ max_cluster_node
      → (good : All IsAddr addrs) → Unknown k stop c.id_to_addr
      → (c' : Sender (Message F)) × (add_node_addresses (numbered k addrs) c ≡ some c')
        × (c'.sent ≡ c.sent)
        × ((x : ℤ) (a : Addr) → lookup x c.id_to_addr ≡ some a → lookup x c'.id_to_addr ≡ some a)
        × Knows k addrs good c'.id_to_addr
  unfolding numbered add_node_addresses Knows
  add_node_addresses-Knows k stop [] c count limit good unknown = (c, refl, refl, λ x a e. e, tt)
  add_node_addresses-Knows k stop (addr ∷ addrs) c count limit good unknown =
      let here = unknown k (omega arith) (omega arith) in
      let beat = join_addr good.0.ip (good.0.port + 1) in
      let is_beat = heartbeat_addr_lem addr good.0 in
      let both = with_node_new k addr beat c.id_to_addr here.0 here.1 in
      let next = record c { id_to_addr = with_node k addr beat c.id_to_addr } in
      let more =
        add_node_addresses-Knows (suc k) stop addrs next (omega arith) limit good.1
          (with_node-Unknown k addr beat c.id_to_addr stop limit unknown) in
      (
        more.0,
        add_two k addr beat (numbered (suc k) addrs) c is_beat here.0 here.1 ∙ more.1,
        more.2,
        λ x a e. more.3 x a (with_node_old k addr beat c.id_to_addr x a e),
        (
          more.3 (pos k) addr both.0,
          more.3 (pos (k + max_cluster_node)) beat both.1 ∙ ap some (join_addr_lem good.0),
          more.4,
        ),
      )
