-- ===== src/User/TrackWalk/Branches.antt =====
-- user/traintrack/track_data.c: track_node_by_branch_id on tracks A and B.
use mathlib.Core.Path.{subst}
use choochoo_os.Base.{
  below_at, ℕ, ◌<◌, ◌≡◌, refl, ap, sym, ◌⊎◌, inl, inr, Bool, true, false, ◌==◌, ◌&&◌, ltb, Option,
  none, some, if◌then◌else◌, and_left, and_right, arith,
}
use choochoo_os.Base.Int.{ℤ, pos, negsuc, eqb_ℤ}
use choochoo_os.User.Track.{
  TrackNode, NodeType, node_none, node_sensor, node_branch, node_merge, node_enter, node_exit,
}
use choochoo_os.User.Track.Post.{post_track, for_switches, for_nodes}
use choochoo_os.User.Track.TrackA.{init_tracka}
use choochoo_os.User.Track.TrackB.{init_trackb}
use choochoo_os.User.TrackWalk.{track_node_by_branch_id}

abbrev is_branch : NodeType → Bool
is_branch node_branch = true
is_branch _ = false

is_branch-node_branch : (t : NodeType) → is_branch t ≡ true → t ≡ node_branch
is_branch-node_branch node_none h = absurd (ground arith)
is_branch-node_branch node_sensor h = absurd (ground arith)
is_branch-node_branch node_branch h = refl
is_branch-node_branch node_merge h = absurd (ground arith)
is_branch-node_branch node_enter h = absurd (ground arith)
is_branch-node_branch node_exit h = absurd (ground arith)

abbrev numbered : (ℕ → TrackNode) → ℕ → Option ℕ → Bool
numbered t id none = true
numbered t id (some i) = ltb i 144 && (is_branch (t i).type && eqb_ℤ (t i).num (pos id))

abbrev is_at : ℕ → Option ℕ → Bool
is_at i none = false
is_at i (some j) = i == j

abbrev found_at : (ℕ → TrackNode) → ℕ → Bool
found_at t i = if is_branch (t i).type then is_at i (track_node_by_branch_id (t i).num) else true

abbrev number_of : (ℕ → TrackNode) → ℕ → Bool
number_of t id = numbered t id (track_node_by_branch_id (pos id))

-- What the lookup is to find: a branch by its number.
abbrev pub Branch : (ℕ → TrackNode) → ℕ → ℕ → Type 0
Branch t id i = (i < 144) × ((t i).type ≡ node_branch) × ((t i).num ≡ pos id)

eqb_ℤ→eq : (a : ℤ) (n : ℕ) → eqb_ℤ a (pos n) ≡ true → a ≡ pos n
eqb_ℤ→eq (pos m) n h = ap pos (ground arith)
eqb_ℤ→eq (negsuc m) n h = absurd (ground arith)

is_at→eq : (i : ℕ) (o : Option ℕ) → is_at i o ≡ true → o ≡ some i
is_at→eq i none h = absurd (ground arith)
is_at→eq i (some j) h = ap (λ k. some k) (ground arith)

numbered-Branch :
    (t : ℕ → TrackNode) (id i : ℕ) (o : Option ℕ)
    → o ≡ some i
    → numbered t id o ≡ true
    → Branch t id i
numbered-Branch t id i none e h = absurd (ground arith)
numbered-Branch t id i (some j) e h = subst (Branch t id) (same e) (
  ltb→lt j (and_left (ltb j 144) (branch && number) h),
  is_branch-node_branch (t j).type (and_left branch number both),
  eqb_ℤ→eq (t j).num id (and_right branch number both),
)
  where
    branch : Bool
    branch = is_branch (t j).type

    number : Bool
    number = eqb_ℤ (t j).num (pos id)

    both : branch && number ≡ true
    both = and_right (ltb j 144) (branch && number) h

    same : {a b : ℕ} → some a ≡ some b → a ≡ b
    same g = ground arith

    ltb→lt : (a : ℕ) → ltb a 144 ≡ true → a < 144
    ltb→lt a g = ground arith

small : (id i : ℕ) → track_node_by_branch_id (pos id) ≡ some i → id < 157
unfolding track_node_by_branch_id
small id i h = ground arith

module _ (track : ℕ → TrackNode) where
  finds :
      ((i : ℕ) → i < 144 → found_at track i ≡ true)
      → (id i : ℕ) → Branch track id i
      → track_node_by_branch_id (pos id) ≡ some i
  finds all id i (h, ty, n) =
      subst (λ m. track_node_by_branch_id m ≡ some i) n
        (is_at→eq i (track_node_by_branch_id (track i).num) (
          subst
            (λ s.
              (if is_branch s then is_at i (track_node_by_branch_id (track i).num) else true)
              ≡ true)
            ty (all i h)))

  only :
      ((id : ℕ) → id < 157 → number_of track id ≡ true)
      → (id i : ℕ) → track_node_by_branch_id (pos id) ≡ some i
      → Branch track id i
  only all id i h =
      numbered-Branch track id i (track_node_by_branch_id (pos id)) h (all id (small id i h))

tracka_found : (i : ℕ) → i < 144 → found_at init_tracka i ≡ true
unfolding track_node_by_branch_id post_track for_switches for_nodes
tracka_found = below_at 144 (found_at init_tracka) refl

trackb_found : (i : ℕ) → i < 144 → found_at init_trackb i ≡ true
unfolding track_node_by_branch_id post_track for_switches for_nodes
trackb_found = below_at 144 (found_at init_trackb) refl

tracka_numbers : (id : ℕ) → id < 157 → number_of init_tracka id ≡ true
unfolding track_node_by_branch_id post_track for_switches for_nodes
tracka_numbers = below_at 157 (number_of init_tracka) refl

trackb_numbers : (id : ℕ) → id < 157 → number_of init_trackb id ≡ true
unfolding track_node_by_branch_id post_track for_switches for_nodes
trackb_numbers = below_at 157 (number_of init_trackb) refl

abbrev Exact : ℕ → ℕ → (ℕ → TrackNode) → Type 0
Exact id i track =
    (track_node_by_branch_id (pos id) ≡ some i → Branch track id i)
    × (Branch track id i → track_node_by_branch_id (pos id) ≡ some i)

-- On tracks A and B, for a number that is not negative, track_node_by_branch_id returns a node exactly
-- if that is a turnout, a branch, of this number.
pub track_node_by_branch_id-Branch :
    (track : ℕ → TrackNode) (id i : ℕ)
    → (track ≡ init_tracka) ⊎ (track ≡ init_trackb)
    → (track_node_by_branch_id (pos id) ≡ some i → Branch track id i)
      × (Branch track id i → track_node_by_branch_id (pos id) ≡ some i)
track_node_by_branch_id-Branch track id i (inl e) =
    subst (Exact id i) (sym e)
      (only init_tracka tracka_numbers id i, finds init_tracka tracka_found id i)
track_node_by_branch_id-Branch track id i (inr e) =
    subst (Exact id i) (sym e)
      (only init_trackb trackb_numbers id i, finds init_trackb trackb_found id i)
