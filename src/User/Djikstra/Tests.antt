-- ===== src/User/Djikstra/Tests.antt =====
-- Routes on track A.
use choochoo_os.Base.{◌≡◌, refl, ◌≢◌, inl, ℕ, false, none, arith}
use choochoo_os.Base.Int.{pos}
use choochoo_os.User.Track.Post.{post_track, for_switches, for_nodes}
use choochoo_os.User.Track.TrackA.{init_tracka}
use choochoo_os.User.Djikstra.{
  Query, Trace, traced, out_of_fuel, search, visit, pick, consider, relax, relax_forwards, expand,
  is_blocked, finish, do_edge_trace, do_djikstra,
}
use choochoo_os.User.Djikstra.Tracks.{tracks-InTrack}
use choochoo_os.User.Djikstra.Route.{Outcome, do_djikstra_shortest, do_djikstra_ends}

-- From A1 to its next sensor, no zone being asked for.
abbrev query : Query
query = record {
  track = init_tracka;
  source_node = 0;
  dest_node = 44;
  allow_reversal = false;
  check_reserve = false;
  zone_is_reserved = λ _ _. false;
}

abbrev count : Trace → ℕ
count (traced (pos n) g) = n
count _ = 200

one_route : count (do_djikstra query (λ _. none)) ≡ 3
unfolding search visit pick consider relax relax_forwards expand is_blocked finish do_edge_trace
    post_track for_switches for_nodes
one_route = refl

do_djikstra_shortest_example : Outcome query (λ _. none) (do_djikstra query (λ _. none))
do_djikstra_shortest_example =
    do_djikstra_shortest query (λ _. none) (tracks-InTrack query (inl refl) (omega arith))

do_djikstra_ends_example : do_djikstra query (λ _. none) ≢ out_of_fuel
do_djikstra_ends_example = do_djikstra_ends query (λ _. none)
