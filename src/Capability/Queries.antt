-- ===== src/Capability/Queries.antt =====
-- internal/capability/registry.go: what `Query` and the counts tell of the nodes.
use mathlib.Core.List.{Memᴰ, Perm, Permᴰ}
use mathlib.Core.List.Perm
use mathlib.Core.List.Memᴰ
use mathlib.Core.Path.{subst₂}
use mathlib.Core.Logic.{∥∥₁_elim}
use loqa_core.Base.{
  ℕ, ◌+◌, ◌≡◌, ◌↔◌, refl, sym, ap, ◌∙◌, String, ◌==◌, eq_iff, Bool, true, false, Option, none, some,
  List, [], ◌∷◌, lookup, insert, length, arith, if◌then◌else◌, Bool-cases, inl, inr, if-same, subst,
  is_empty, Time,
}
use loqa_core.Capability.{
  Capability, NodeInfo, Nodes, accepts, query, any_capability, with_capability_filter,
  with_tier_filter, snapshot_counts, update_node, updated, or_new,
}

-- Some capability of the list has the property.
abbrev pub Offers : (Capability → Type 0) → List Capability → Type 0
Offers P caps = (cap : Capability) × Memᴰ cap caps × P cap

any_capability_sound :
    (test : Capability → Bool) (caps : List Capability)
    → any_capability test caps ≡ true
    → Offers (λ cap. test cap ≡ true) caps
unfolding any_capability
any_capability_sound test [] h = cc
any_capability_sound test (cap ∷ caps) h = elim (Bool-cases (test cap)) [
  | inl hit ↦ (cap, Memᴰ.head refl, hit)
  | inr miss ↦
      let (other, there, hit) = any_capability_sound test caps (rw miss at h) in
      (other, Memᴰ.tail there, hit)
]

any_capability_complete :
    (test : Capability → Bool) (wanted : Capability) {caps : List Capability}
    → Memᴰ wanted caps
    → test wanted ≡ true
    → any_capability test caps ≡ true
unfolding any_capability
any_capability_complete test wanted (Memᴰ.head {x = first} e) h =
    let hit : test first ≡ true = ap test (sym e) ∙ h in rw hit
any_capability_complete test wanted (Memᴰ.tail {x = first} there) h =
    rw (any_capability_complete test wanted there h) (if-same (test first) true)

any_capability_iff :
    (test : Capability → Bool) (caps : List Capability)
    → (any_capability test caps ≡ true) ↔ Offers (λ cap. test cap ≡ true) caps
any_capability_iff test caps = (
  any_capability_sound test caps,
  λ (wanted, there, hit). any_capability_complete test wanted there hit,
)

-- A node is a capability's, or a tier's, exactly if it offers one of that name, or on that tier.
pub filters_iff :
    (text : String) (node : NodeInfo)
    → ((with_capability_filter text node ≡ true)
        ↔ Offers (λ cap. cap.name ≡ text) node.capabilities)
      × ((with_tier_filter text node ≡ true) ↔ Offers (λ cap. cap.tier ≡ text) node.capabilities)
unfolding with_capability_filter with_tier_filter
filters_iff text node = (named (λ cap. cap.name), named (λ cap. cap.tier))
  where
    named :
        (label : Capability → String)
        → (any_capability (λ cap. label cap == text) node.capabilities ≡ true)
          ↔ Offers (λ cap. label cap ≡ text) node.capabilities
    named label = (
      λ h.
          let (c, there, hit) =
            (any_capability_iff (λ cap. label cap == text) node.capabilities).0 h in
          (c, there, (eq_iff (label c) text).0 hit),
      λ (c, there, e).
          (any_capability_iff (λ cap. label cap == text) node.capabilities).1
            (c, there, (eq_iff (label c) text).1 e),
    )

query_sound :
    (filter : NodeInfo → Bool) (node : NodeInfo) (nodes : Nodes)
    → Memᴰ node (query (some filter) nodes)
    → (k : String) × Memᴰ (k, node) nodes × (filter node ≡ true)
unfolding query
query_sound filter node [] h = elim h [ ]
query_sound filter node ((id, other) ∷ nodes) h = elim (Bool-cases (filter other)) [
  | inl hit ↦ elim (Memᴰ.cases_cons (rw hit at h)) [
    | inl here ↦ (id, Memᴰ.head (ap (λ n. (id, n)) here), ap filter here ∙ hit)
    | inr there ↦
        let (k, known, passes) = query_sound filter node nodes there in (k, Memᴰ.tail known, passes)
  ]
  | inr miss ↦
      let (k, known, passes) = query_sound filter node nodes (rw miss at h) in
      (k, Memᴰ.tail known, passes)
]

query-complete :
    (filter : NodeInfo → Bool) (k : String) (node : NodeInfo) {nodes : Nodes}
    → Memᴰ (k, node) nodes
    → filter node ≡ true
    → Memᴰ node (query (some filter) nodes)
unfolding query
query-complete filter k node (Memᴰ.head {x = (id, other)} e) h =
    let here : node ≡ other = ap (λ p. p.1) e in
    let hit : filter other ≡ true = ap filter (sym here) ∙ h in rw hit (Memᴰ.head here)
query-complete filter k node (Memᴰ.tail {x = (id, other)} there) h =
    let rest = query-complete filter k node there h in
    elim (Bool-cases (filter other)) [ inl hit ↦ rw hit (Memᴰ.tail rest) | inr miss ↦ rw miss rest ]

-- A node is told exactly if it is known, under some key, and passes the filter.
abbrev pub IsTold : (NodeInfo → Bool) → (NodeInfo → Type 0) → Nodes → NodeInfo → Type 0
IsTold filter P nodes node =
    Memᴰ node (query (some filter) nodes) ↔ ((k : String) × Memᴰ (k, node) nodes × P node)

query-IsTold :
    (filter : NodeInfo → Bool) (P : NodeInfo → Type 0) (nodes : Nodes) (node : NodeInfo)
    → (filter node ≡ true) ↔ P node
    → IsTold filter P nodes node
query-IsTold filter P nodes node same = (
  λ h. let (k, known, passes) = query_sound filter node nodes h in (k, known, same.0 passes),
  λ (k, known, p). query-complete filter k node known (same.1 p),
)

abbrev kept : Bool → NodeInfo → List NodeInfo → List NodeInfo
kept b node found = if b then node ∷ found else found

kept-perm :
    (b : Bool) (node : NodeInfo) {xs ys : List NodeInfo}
    → Perm xs ys
    → Perm (kept b node xs) (kept b node ys)
kept-perm true node p = Perm.cons node p
kept-perm false node p = p

kept-swap :
    (a b : Bool) (x y : NodeInfo) (found : List NodeInfo)
    → Perm (kept a x (kept b y found)) (kept b y (kept a x found))
kept-swap true true x y found = Perm.swap y x found
kept-swap true false x y found = Perm.refl _
kept-swap false b x y found = Perm.refl _

query-Permᴰ :
    (filter : Option (NodeInfo → Bool)) {nodes nodes' : Nodes}
    → Permᴰ nodes nodes'
    → Perm (query filter nodes) (query filter nodes')
unfolding query
query-Permᴰ filter Permᴰ.nil = Perm.refl []
query-Permᴰ filter (Permᴰ.cons {a = a} {l₁ = l} {l₂ = l'} e p) =
    subst (λ (b : String × NodeInfo). Perm (query filter (a ∷ l)) (query filter (b ∷ l'))) e
      (kept-perm (accepts filter a.1) a.1 (query-Permᴰ filter p))
query-Permᴰ filter (Permᴰ.swap {a = a} {b = b} {a' = a'} {b' = b'} {l = l} e e') =
    subst₂ (λ (x y : String × NodeInfo). Perm (query filter (a ∷ b ∷ l)) (query filter (y ∷ x ∷ l)))
      e e' (kept-swap (accepts filter a.1) (accepts filter b.1) a.1 b.1 (query filter l))
query-Permᴰ filter (Permᴰ.trans p q) = Perm.trans (query-Permᴰ filter p) (query-Permᴰ filter q)

-- The order in which Go goes over the map changes a query's answer by its order alone.
pub query-perm :
    (filter : Option (NodeInfo → Bool)) {nodes nodes' : Nodes}
    → Perm nodes nodes'
    → Perm (query filter nodes) (query filter nodes')
query-perm filter p = ∥∥₁_elim p squash₁ (query-Permᴰ filter)

-- A query for a capability's name tells a node exactly if it is known and offers a capability of that
-- name, and one for a tier exactly if it is known and offers a capability on that tier; the order in
-- which Go goes over the map changes the answer by its order alone.
pub query-filters :
    (text : String) {nodes nodes' : Nodes} (node : NodeInfo)
    → Perm nodes nodes'
    → IsTold
        (with_capability_filter text)
        (λ n. Offers (λ cap. cap.name ≡ text) n.capabilities)
        nodes
        node
      × IsTold
          (with_tier_filter text)
          (λ n. Offers (λ cap. cap.tier ≡ text) n.capabilities)
          nodes
          node
      × Perm
          (query (some (with_capability_filter text)) nodes)
          (query (some (with_capability_filter text)) nodes')
query-filters text {nodes} node p = (
  query-IsTold (with_capability_filter text) (λ n. Offers (λ cap. cap.name ≡ text) n.capabilities)
      nodes node (filters_iff text node).0,
  query-IsTold (with_tier_filter text) (λ n. Offers (λ cap. cap.tier ≡ text) n.capabilities) nodes
      node (filters_iff text node).1,
  query-perm (some (with_capability_filter text)) p,
)

known : Option NodeInfo → ℕ
known none = 0
known (some node) = 1

offered : Option NodeInfo → ℕ
offered none = 0
offered (some node) = length node.capabilities

abbrev IsCounted : String → NodeInfo → Nodes → Type 0
IsCounted k new nodes =
    let (count, caps) = snapshot_counts nodes in
    let (count', caps') = snapshot_counts (insert k new nodes) in
    (count' + known (lookup k nodes) ≡ count + 1)
    × (caps' + offered (lookup k nodes) ≡ caps + length new.capabilities)

insert-snapshot_lem : (k : String) (new : NodeInfo) (nodes : Nodes) → IsCounted k new nodes
unfolding snapshot_counts insert lookup known offered
insert-snapshot_lem k new [] = (omega arith, omega arith)
insert-snapshot_lem k new ((id, node) ∷ nodes) =
    let ih = insert-snapshot_lem k new nodes in
    elim (Bool-cases (id == k)) [
      | inl same ↦ rw same (omega arith, omega arith)
      | inr apart ↦ rw apart (omega (arith, ih.0), omega (arith, ih.1))
    ]

-- The counts that the gauges report: a message of an unknown node adds one node, one of a known node
-- none, and the node's capabilities replace those that were counted for it, unless it names none.
pub snapshot_counts-update_node :
    (node_id role : String) (caps : List Capability) (timestamp : Time) (healthy : Bool)
    (nodes : Nodes)
    → let (count, total) = snapshot_counts nodes in
      let (count', total') =
        snapshot_counts (update_node node_id role caps timestamp healthy nodes) in
      (lookup node_id nodes ≡ none → (count' ≡ count + 1) × (total' ≡ total + length caps))
      × ((node : NodeInfo)
          → lookup node_id nodes ≡ some node
          → (count' ≡ count)
            × (total' + length node.capabilities
                ≡ total + (if is_empty caps then length node.capabilities else length caps)))
unfolding update_node known offered
snapshot_counts-update_node node_id role [] timestamp healthy nodes =
    (λ e. ground (arith, e, counts), λ node e. ground (arith, e, counts))
  where
    counts :
        IsCounted node_id
          (updated (or_new node_id (lookup node_id nodes)) role [] timestamp healthy)
          nodes
    counts = insert-snapshot_lem node_id _ nodes
snapshot_counts-update_node node_id role (c ∷ caps) timestamp healthy nodes =
    (λ e. ground (arith, e, counts), λ node e. ground (arith, e, counts))
  where
    counts :
        IsCounted node_id
          (updated (or_new node_id (lookup node_id nodes)) role (c ∷ caps) timestamp healthy)
          nodes
    counts = insert-snapshot_lem node_id _ nodes
