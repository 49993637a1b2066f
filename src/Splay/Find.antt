-- ===== src/Splay/Find.antt =====
-- The lookup that splays: it answers what the const lookup answers, and moves no record.
use kvdb.Base.{◌≡◌, refl, ap, ◌∙◌, Option, none, some, List, [], ◌∷◌, Bool-cases, inl, inr}
use kvdb.Entry.{ArenaEntry, entry_lt, entry_eq}
use kvdb.Record.Versions.{Whenever}
use kvdb.Tree.{nil, node, from_left, from_right, plug, inorder, find_loop, find_latest_by_key}
use kvdb.Splay.{
  SplayTree, SplayFrame, Position, focus, search, splay_at, record_at, either, find_mutable,
}
use kvdb.Splay.Order.{inorder-splay}

-- The position is one of the tree.
abbrev At : SplayTree → Position → Type 0
At whole p = plug (focus p) p.above ≡ whole

search-At :
    (whole : SplayTree) (key : ArenaEntry) (t : SplayTree) (above : List SplayFrame)
    (result last : Option Position)
    → plug t above ≡ whole
    → Whenever (At whole) result
    → Whenever (At whole) last
    → Whenever (At whole) (search key t above result last).0
      × Whenever (At whole) (search key t above result last).1
unfolding search
search-At whole key nil above result last h r l = (r, l)
search-At whole key (node e x a b) above result last h r l =
    let here : Option Position = some (record { found = x; left = a; right = b; above = above }) in
    elim (Bool-cases (entry_lt x.key_entry key)) [
      | inl below ↦ rw below (search-At whole key b (from_right e x a ∷ above) result here h r h)
      | inr above_it ↦ elim (Bool-cases (entry_eq x.key_entry key)) [
        | inl m ↦ rw (above_it, m) (search-At whole key a (from_left e x b ∷ above) here here h h h)
        | inr m ↦
            rw (above_it, m) (search-At whole key a (from_left e x b ∷ above) result here h r h)
      ]
    ]

record_at-search :
    (key : ArenaEntry) (t : SplayTree) (above : List SplayFrame) (result last : Option Position)
    → record_at (search key t above result last).0 ≡ find_loop key t (record_at result)
unfolding search find_loop
record_at-search key nil above result last = refl
record_at-search key (node e x a b) above result last =
    let here : Option Position = some (record { found = x; left = a; right = b; above = above }) in
    elim (Bool-cases (entry_lt x.key_entry key)) [
      | inl below ↦ rw below (record_at-search key b (from_right e x a ∷ above) result here)
      | inr above_it ↦ elim (Bool-cases (entry_eq x.key_entry key)) [
        | inl m ↦ rw (above_it, m) (record_at-search key a (from_left e x b ∷ above) here here)
        | inr m ↦ rw (above_it, m) (record_at-search key a (from_left e x b ∷ above) result here)
      ]
    ]

inorder-splay_at :
    (t : SplayTree) (p : Option Position) → Whenever (At t) p → inorder (splay_at t p) ≡ inorder t
unfolding splay_at
inorder-splay_at t none h = refl
inorder-splay_at t (some p) h = inorder-splay (focus p) p.above ∙ ap inorder h

either-At :
    (t : SplayTree) (a b : Option Position)
    → Whenever (At t) a
    → Whenever (At t) b
    → Whenever (At t) (either a b)
either-At t none b h k = k
either-At t (some p) b h k = h

-- The lookup that splays answers what the lookup without splaying answers, and leaves the records of
-- the tree and their order as they are.
pub find_mutable-find_latest_by_key :
    (t : SplayTree) (key : ArenaEntry)
    → ((find_mutable t key).1 ≡ find_latest_by_key t key)
      × (inorder (find_mutable t key).0 ≡ inorder t)
unfolding find_mutable find_latest_by_key
find_mutable-find_latest_by_key t key =
    let (r, l) = search-At t key t [] none none refl tt tt in
    (
      record_at-search key t [] none none,
      inorder-splay_at t _
          (either-At t (search key t [] none none).0 (search key t [] none none).1 r l),
    )
