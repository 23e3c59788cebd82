-- ===== src/Agent/Arrivals.antt =====
-- src/agent/agent.cc: the replies that Pull waits for, in whatever order they arrive.
use plug_in_ml.Base.{
  suc, ◌≡◌, refl, sym, ap, ap₂, ◌∙◌, Bool, true, false, ◌||◌, not, ◌&&◌, Option, some, List, [],
  ◌∷◌, ◌++◌, ℤ, ◌==ℤ◌, ==ℤ_refl, ==ℤ→eq, eq_of_parts, length, length-append, All, Distinct,
  contains, arith, inl, inr, Bool-cases,
}
use mathlib.Core.Path.{subst}
use mathlib.Core.List.{Permᴰ, append_assoc}
use mathlib.Core.List.Permᴰ
use plug_in_ml.Message.{Message, RequestMessage, RequestType}
use plug_in_ml.Server.Pull.{key_value_reply}
use plug_in_ml.Agent.Pull.{set_erase, accept}
use plug_in_ml.Agent.Sort.Sorted.{zip}
use plug_in_ml.Agent.Collect.{Arrives, complete, replies, reply_keys, reply_values}

-- What a server answers: as many values as keys.
pub record Answer (F : Type 0) : Type 0 where
  pub server_id : ℤ
  pub keys : List ℤ
  pub values : List F
  pub paired : length values ≡ length keys

module _ {F : Type 0} where
  abbrev pub answer_body : Answer F → RequestMessage F
  answer_body a = record { request_type = RequestType.key_value; keys = a.keys; values = a.values }

  abbrev pub answer_message : ℤ → Answer F → Message F
  answer_message local_id a = key_value_reply a.server_id local_id a.keys a.values

  unfoldable pub bodies : List (Answer F) → List (RequestMessage F)
  bodies [] = []
  bodies (a ∷ rest) = answer_body a ∷ bodies rest

  unfoldable pub arriving : ℤ → List (Answer F) → List (Option (Message F))
  arriving local_id [] = []
  arriving local_id (a ∷ rest) = some (answer_message local_id a) ∷ arriving local_id rest

  unfoldable pub senders : List (Answer F) → List ℤ
  senders [] = []
  senders (a ∷ rest) = a.server_id ∷ senders rest

  answer-accepted :
      (local_id : ℤ) (servers : List ℤ) (a : Answer F)
      → contains a.server_id servers ≡ true
      → accept local_id servers (answer_message local_id a) ≡ some (answer_body a)
  unfolding accept key_value_reply
  answer-accepted local_id servers a e = rw (e, ==ℤ_refl local_id) refl

contains-set_erase :
    (x y : ℤ) (servers : List ℤ)
    → contains x (set_erase y servers) ≡ (not (y ==ℤ x) && contains x servers)
unfolding set_erase contains
contains-set_erase x y [] = and_false (not (y ==ℤ x))
  where
    and_false : (b : Bool) → false ≡ (b && false)
    and_false true = refl
    and_false false = refl
contains-set_erase x y (z ∷ servers) =
    ground
      (arith, contains-set_erase x y servers, eq_of_parts z y, eq_of_parts z x, eq_of_parts y x)

module _ {F : Type 0} where
  -- The servers to wait for are those that answer, and none answers twice.
  pub record IsComplete (servers : List ℤ) (answers : List (Answer F)) : Type 0 where
    pub once : Distinct (senders answers)
    pub same : (x : ℤ) → contains x servers ≡ contains x (senders answers)

  pub IsComplete-Arrives :
      (local_id : ℤ) (servers : List ℤ) (answers : List (Answer F))
      → IsComplete servers answers
      → Arrives local_id servers (arriving local_id answers) (bodies answers)
  unfolding arriving bodies senders contains key_value_reply
  IsComplete-Arrives local_id [] [] c = complete []
  IsComplete-Arrives local_id (s ∷ servers) [] c =
      let here = c.same s in absurd (ground (arith, here))
  IsComplete-Arrives local_id [] (a ∷ rest) c =
      let here = c.same a.server_id in absurd (ground (arith, here))
  IsComplete-Arrives local_id (s ∷ servers) (a ∷ rest) c =
      let first : contains a.server_id (senders (a ∷ rest)) ≡ true =
        rw (==ℤ_refl a.server_id) refl in
      replies s servers (answer_message local_id a) (answer_body a) (arriving local_id rest)
        (bodies rest) (answer-accepted local_id (s ∷ servers) a (c.same a.server_id ∙ first))
        a.paired
        (IsComplete-Arrives local_id (set_erase a.server_id (s ∷ servers)) rest (record {
          once = c.once.1;
          same = λ x. contains-set_erase x a.server_id (s ∷ servers) ∙ left x;
        }))
    where
      left :
          (x : ℤ)
          → (not (a.server_id ==ℤ x) && contains x (s ∷ servers)) ≡ contains x (senders rest)
      left x = elim (Bool-cases (a.server_id ==ℤ x)) [
        | inl same ↦ rw same (
            sym
              (subst (λ y. contains y (senders rest) ≡ false) (==ℤ→eq a.server_id x same) c.once.0))
        | inr other ↦ rw other (c.same x ∙ rw other refl)
      ]

or_left_comm : (a b c : Bool) → (a || (b || c)) ≡ (b || (a || c))
or_left_comm true true c = refl
or_left_comm true false c = refl
or_left_comm false true c = refl
or_left_comm false false c = refl

Distinct-swap : (a b : ℤ) (xs : List ℤ) → Distinct (a ∷ b ∷ xs) → Distinct (b ∷ a ∷ xs)
unfolding contains
Distinct-swap a b xs h = (ground (arith, h.0, h.1.0), (ground (arith, h.0), h.1.1))

blocks_swap : {A : Type 0} (xs ys zs : List A) → Permᴰ (xs ++ (ys ++ zs)) (ys ++ (xs ++ zs))
blocks_swap xs ys zs =
    subst (λ l. Permᴰ l (ys ++ (xs ++ zs))) (append_assoc xs ys zs)
      (subst (Permᴰ ((xs ++ ys) ++ zs)) (append_assoc ys xs zs)
        (Permᴰ.append_right zs (Permᴰ.append_comm xs ys)))

module _ {ℓ} {A : Type ℓ} where
  pub length-perm : {xs ys : List A} → Permᴰ xs ys → length xs ≡ length ys
  length-perm Permᴰ.nil = refl
  length-perm (Permᴰ.cons e d) = ap suc (length-perm d)
  length-perm (Permᴰ.swap e f) = refl
  length-perm (Permᴰ.trans d d') = length-perm d ∙ length-perm d'

  pub All-perm {κ} : (P : A → Type κ) {xs ys : List A} → Permᴰ xs ys → All P xs → All P ys
  All-perm P Permᴰ.nil h = tt
  All-perm P (Permᴰ.cons e d) h = (subst P e h.0, All-perm P d h.1)
  All-perm P (Permᴰ.swap e f) h = (subst P f h.1.0, (subst P e h.0, h.1.1))
  All-perm P (Permᴰ.trans d d') h = All-perm P d' (All-perm P d h)

module _ {F : Type 0} where
  All-zip-append :
      (P : ℤ × F → Type 0) (ks ls : List ℤ) (vs ws : List F)
      → length vs ≡ length ks
      → All P (zip ks vs)
      → All P (zip ls ws)
      → All P (zip (ks ++ ls) (vs ++ ws))
  All-zip-append P [] ls [] ws e h k = k
  All-zip-append P [] ls (v ∷ vs) ws e h k = absurd (omega arith)
  All-zip-append P (k ∷ ks) ls [] ws e h l = absurd (omega arith)
  All-zip-append P (k ∷ ks) ls (v ∷ vs) ws e h l =
      (h.0, All-zip-append P ks ls vs ws (omega arith) h.1 l)

  contains-perm :
      {a b : List (Answer F)}
      → Permᴰ a b
      → (x : ℤ) → contains x (senders a) ≡ contains x (senders b)
  unfolding contains senders
  contains-perm Permᴰ.nil x = refl
  contains-perm (Permᴰ.cons e d) x = ap₂ (λ u v. (u.server_id ==ℤ x) || v) e (contains-perm d x)
  contains-perm (Permᴰ.swap {a' = a'} {b' = b'} {l = l} e f) x =
      ap₂ (λ u v. (u.server_id ==ℤ x) || ((v.server_id ==ℤ x) || contains x (senders l))) e f
      ∙ or_left_comm (b'.server_id ==ℤ x) (a'.server_id ==ℤ x) (contains x (senders l))
  contains-perm (Permᴰ.trans d d') x = contains-perm d x ∙ contains-perm d' x

  Distinct-perm : {a b : List (Answer F)} → Permᴰ a b → Distinct (senders a) → Distinct (senders b)
  unfolding contains senders
  Distinct-perm Permᴰ.nil h = tt
  Distinct-perm (Permᴰ.cons {b = b} {l₁ = l₁} e d) h = (
    sym (contains-perm d b.server_id) ∙ ap (λ u. contains u.server_id (senders l₁)) (sym e) ∙ h.0,
    Distinct-perm d h.1,
  )
  Distinct-perm (Permᴰ.swap {a = a} {b = b} {a' = a'} {l = l} e f) h =
      subst (λ u. Distinct (senders (a' ∷ u ∷ l))) e
        (subst (λ u. Distinct (senders (u ∷ a ∷ l))) f
          (Distinct-swap a.server_id b.server_id (senders l) h))
  Distinct-perm (Permᴰ.trans d d') h = Distinct-perm d' (Distinct-perm d h)

  pub reply_keys-perm :
      {a b : List (Answer F)} → Permᴰ a b → Permᴰ (reply_keys (bodies a)) (reply_keys (bodies b))
  unfolding reply_keys bodies
  reply_keys-perm Permᴰ.nil = Permᴰ.nil
  reply_keys-perm (Permᴰ.cons {a = a} {l₁ = l₁} {l₂ = l₂} e d) =
      subst (λ u. Permᴰ (a.keys ++ reply_keys (bodies l₁)) (u.keys ++ reply_keys (bodies l₂))) e
        (Permᴰ.append_left a.keys (reply_keys-perm d))
  reply_keys-perm (Permᴰ.swap {a = a} {b = b} {a' = a'} {l = l} e f) =
      let rest = reply_keys (bodies l) in
      subst (λ u. Permᴰ (a.keys ++ (b.keys ++ rest)) (a'.keys ++ (u.keys ++ rest))) e
        (subst (λ u. Permᴰ (a.keys ++ (b.keys ++ rest)) (u.keys ++ (a.keys ++ rest))) f
          (blocks_swap a.keys b.keys rest))
  reply_keys-perm (Permᴰ.trans d d') = Permᴰ.trans (reply_keys-perm d) (reply_keys-perm d')

  pub IsComplete-perm :
      {a b : List (Answer F)} (servers : List ℤ)
      → Permᴰ a b
      → IsComplete servers b
      → IsComplete servers a
  IsComplete-perm servers d c = record {
    once = Distinct-perm (Permᴰ.symm d) c.once;
    same = λ x. c.same x ∙ sym (contains-perm d x);
  }

  -- A property of each answer's keys with their values is one of all that the answers bring.
  pub All-bodies :
      (P : ℤ × F → Type 0) (answers : List (Answer F))
      → All (λ a. All P (zip a.keys a.values)) answers
      → All P (zip (reply_keys (bodies answers)) (reply_values (bodies answers)))
  unfolding reply_keys reply_values bodies
  All-bodies P [] h = tt
  All-bodies P (a ∷ rest) h =
      All-zip-append P a.keys (reply_keys (bodies rest)) a.values (reply_values (bodies rest))
        a.paired h.0 (All-bodies P rest h.1)

  pub length-bodies :
      (answers : List (Answer F))
      → length (reply_values (bodies answers)) ≡ length (reply_keys (bodies answers))
  unfolding reply_keys reply_values bodies
  length-bodies [] = refl
  length-bodies (a ∷ rest) = omega (
    arith,
    a.paired,
    length-bodies rest,
    length-append a.keys (reply_keys (bodies rest)),
    length-append a.values (reply_values (bodies rest)),
  )
