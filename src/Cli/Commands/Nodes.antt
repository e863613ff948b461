-- ===== src/Cli/Commands/Nodes.antt =====
-- crates/pq-cli/src/main.rs: the nodes of a membership proof, as the response has them.
use pq_enclave_binding.Base.{
  ◌≡◌, inl, inr, refl, subst, List, [], ◌∷◌, Bytes, String, ok, >>=-eq-ok, ok-injective,
  Outcome-cases, length, ◌==◌, ==_iff, Bool-cases, All,
}
use pq_enclave_binding.Cli.{Error}
use pq_enclave_binding.Cli.Commands.{World, decode_node, decode_nodes}

module _ {Op : Type 0} (w : World Op) where
  decode_node-eq-ok :
      (text : String) (node : Bytes)
      → decode_node w text ≡ ok node
      → (w.hex.decode text ≡ ok node) × (length node ≡ 32)
  unfolding decode_node
  decode_node-eq-ok text node h = elim (Outcome-cases (w.hex.decode text)) [
    | inl (b, e) ↦ elim (Bool-cases (length b == 32)) [
      | inl size ↦
          let same = ok-injective Error (rw (e, decode_node, size) at h) in
          subst {A = Bytes} (λ n. (w.hex.decode text ≡ ok n) × (length n ≡ 32)) same
            (e, (==_iff _ _).0 size)
      | inr other ↦ absurd (let bad = rw (e, decode_node, other) at h in cc)
    ]
    | inr (inl (x, e)) ↦ absurd (let bad = rw (e, decode_node) at h in cc)
    | inr (inr e) ↦ absurd (let bad = rw (e, decode_node) at h in cc)
  ]

  decode_node_lem :
      (text : String) (node : Bytes)
      → w.hex.decode text ≡ ok node
      → length node ≡ 32
      → decode_node w text ≡ ok node
  unfolding decode_node
  decode_node_lem text node e size = rw (e, decode_node, (==_iff _ _).1 size)

  -- Each text of the proof is a node of 32 bytes in hexadecimal.
  abbrev pub Nodes : List String → List Bytes → Type 0
  Nodes [] [] = Unit
  Nodes [] (n ∷ nodes) = ⊥
  Nodes (t ∷ texts) [] = ⊥
  Nodes (t ∷ texts) (n ∷ nodes) = (w.hex.decode t ≡ ok n) × (length n ≡ 32) × Nodes texts nodes

  pub decode_nodes-Nodes :
      (texts : List String) (nodes : List Bytes)
      → decode_nodes w texts ≡ ok nodes
      → Nodes texts nodes
  unfolding decode_nodes
  decode_nodes-Nodes [] nodes h = subst {A = List Bytes} (Nodes []) (ok-injective Error h) tt
  decode_nodes-Nodes (t ∷ texts) nodes h =
      let (n, e₁, h₁) = >>=-eq-ok (decode_node w t) _ h in
      let (ns, e₂, h₂) = >>=-eq-ok (decode_nodes w texts) _ h₁ in
      let (hex, size) = decode_node-eq-ok t n e₁ in
      subst {A = List Bytes} (Nodes (t ∷ texts)) (ok-injective Error h₂)
        (hex, size, decode_nodes-Nodes texts ns e₂)

  pub Nodes-decode_nodes :
      (texts : List String) (nodes : List Bytes)
      → Nodes texts nodes
      → decode_nodes w texts ≡ ok nodes
  unfolding decode_nodes
  Nodes-decode_nodes [] [] h = refl
  Nodes-decode_nodes [] (n ∷ nodes) h = elim h [ ]
  Nodes-decode_nodes (t ∷ texts) [] h = elim h [ ]
  Nodes-decode_nodes (t ∷ texts) (n ∷ nodes) (e, size, rest) =
      rw (decode_node_lem t n e size, Nodes-decode_nodes texts nodes rest)

  pub Nodes-All :
      (texts : List String) (nodes : List Bytes)
      → Nodes texts nodes
      → All (λ (n : Bytes). length n ≡ 32) nodes
  Nodes-All [] [] h = tt
  Nodes-All [] (n ∷ nodes) h = elim h [ ]
  Nodes-All (t ∷ texts) [] h = elim h [ ]
  Nodes-All (t ∷ texts) (n ∷ nodes) (e, size, rest) = (size, Nodes-All texts nodes rest)
