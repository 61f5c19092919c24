-- ===== src/User/Track/TrackA/Turnouts.antt =====
-- user/traintrack/track_data.c: the turnouts and the ends of track A.
use choochoo_os.Base.{List, [], ◌∷◌}
use choochoo_os.Base.Int.{pos}
use choochoo_os.User.Track.{
  TrackNode, node, ahead, straight_curved, at_end, edge_to, node_branch, node_merge, node_enter,
  node_exit,
}

abbrev pub turnouts_1_7 : List TrackNode
turnouts_1_7 =
    node "BR1" node_branch (pos 1) 81
      (straight_curved (edge_to 80 11 518 10 0) (edge_to 80 8 229 9 0))
    ∷ node "MR1" node_merge (pos 1) 80 (ahead (edge_to 81 83 188 82 0))
    ∷ node "BR2" node_branch (pos 2) 83
        (straight_curved (edge_to 82 80 188 81 0) (edge_to 82 6 229 7 0))
    ∷ node "MR2" node_merge (pos 2) 82 (ahead (edge_to 83 85 185 84 1))
    ∷ node "BR3" node_branch (pos 3) 85
        (straight_curved (edge_to 84 5 231 4 0) (edge_to 84 82 185 83 0))
    ∷ node "MR3" node_merge (pos 3) 84 (ahead (edge_to 85 38 128 39 0))
    ∷ node "BR4" node_branch (pos 4) 87
        (straight_curved (edge_to 86 14 417 15 0) (edge_to 86 13 236 12 0))
    ∷ node "MR4" node_merge (pos 4) 86 (ahead (edge_to 87 103 185 102 1))
    ∷ node "BR5" node_branch (pos 5) 89
        (straight_curved (edge_to 88 34 239 35 0) (edge_to 88 93 371 92 1))
    ∷ node "MR5" node_merge (pos 5) 88 (ahead (edge_to 89 114 155 115 0))
    ∷ node "BR6" node_branch (pos 6) 91
        (straight_curved (edge_to 90 46 239 47 0) (edge_to 90 115 371 114 1))
    ∷ node "MR6" node_merge (pos 6) 90 (ahead (edge_to 91 37 61 36 0))
    ∷ node "BR7" node_branch (pos 7) 93
        (straight_curved (edge_to 92 58 231 59 0) (edge_to 92 89 371 88 1))
    ∷ node "MR7" node_merge (pos 7) 92 (ahead (edge_to 93 74 50 75 0))
    ∷ []

abbrev pub turnouts_8_14 : List TrackNode
turnouts_8_14 =
    node "BR8" node_branch (pos 8) 95
      (straight_curved (edge_to 94 56 316 57 0) (edge_to 94 73 239 72 0))
    ∷ node "MR8" node_merge (pos 8) 94 (ahead (edge_to 95 96 155 97 0))
    ∷ node "BR9" node_branch (pos 9) 97
        (straight_curved (edge_to 96 55 309 54 0) (edge_to 96 52 239 53 0))
    ∷ node "MR9" node_merge (pos 9) 96 (ahead (edge_to 97 94 155 95 0))
    ∷ node "BR10" node_branch (pos 10) 99
        (straight_curved (edge_to 98 51 239 50 0) (edge_to 98 66 239 67 0))
    ∷ node "MR10" node_merge (pos 10) 98 (ahead (edge_to 99 68 50 69 0))
    ∷ node "BR11" node_branch (pos 11) 101
        (straight_curved (edge_to 100 102 188 103 0) (edge_to 100 107 495 106 0))
    ∷ node "MR11" node_merge (pos 11) 100 (ahead (edge_to 101 44 43 45 0))
    ∷ node "BR12" node_branch (pos 12) 103
        (straight_curved (edge_to 102 1 231 0 0) (edge_to 102 86 185 87 0))
    ∷ node "MR12" node_merge (pos 12) 102 (ahead (edge_to 103 101 188 100 0))
    ∷ node "BR13" node_branch (pos 13) 105
        (straight_curved (edge_to 104 20 231 21 0) (edge_to 104 79 246 78 0))
    ∷ node "MR13" node_merge (pos 13) 104 (ahead (edge_to 105 43 120 42 0))
    ∷ node "BR14" node_branch (pos 14) 107
        (straight_curved (edge_to 106 101 495 100 1) (edge_to 106 42 333 43 0))
    ∷ node "MR14" node_merge (pos 14) 106 (ahead (edge_to 107 3 43 2 0))
    ∷ []

abbrev pub turnouts_15_22 : List TrackNode
turnouts_15_22 =
    node "BR15" node_branch (pos 15) 109
      (straight_curved (edge_to 108 36 433 37 0) (edge_to 108 41 326 40 0))
    ∷ node "MR15" node_merge (pos 15) 108 (ahead (edge_to 109 30 50 31 0))
    ∷ node "BR16" node_branch (pos 16) 111
        (straight_curved (edge_to 110 16 231 17 0) (edge_to 110 18 239 19 0))
    ∷ node "MR16" node_merge (pos 16) 110 (ahead (edge_to 111 40 128 41 0))
    ∷ node "BR17" node_branch (pos 17) 113
        (straight_curved (edge_to 112 60 239 61 0) (edge_to 112 62 246 63 0))
    ∷ node "MR17" node_merge (pos 17) 112 (ahead (edge_to 113 77 43 76 0))
    ∷ node "BR18" node_branch (pos 18) 115
        (straight_curved (edge_to 114 39 231 38 0) (edge_to 114 91 371 90 1))
    ∷ node "MR18" node_merge (pos 18) 114 (ahead (edge_to 115 88 155 89 0))
    ∷ node "BR153" node_branch (pos 153) 117
        (straight_curved (edge_to 116 125 253 124 0) (edge_to 116 32 246 33 0))
    ∷ node "MR153" node_merge (pos 153) 116 (ahead (edge_to 117 119 0 118 0))
    ∷ node "BR154" node_branch (pos 154) 119
        (straight_curved (edge_to 118 116 0 117 0) (edge_to 118 29 239 28 0))
    ∷ node "MR154" node_merge (pos 154) 118 (ahead (edge_to 119 122 0 123 0))
    ∷ node "BR155" node_branch (pos 155) 121
        (straight_curved (edge_to 120 127 282 126 0) (edge_to 120 49 246 48 0))
    ∷ node "MR155" node_merge (pos 155) 120 (ahead (edge_to 121 123 0 122 0))
    ∷ node "BR156" node_branch (pos 156) 123
        (straight_curved (edge_to 122 120 0 121 0) (edge_to 122 65 239 64 0))
    ∷ node "MR156" node_merge (pos 156) 122 (ahead (edge_to 123 118 0 119 0))
    ∷ []

abbrev pub ends : List TrackNode
ends =
    node "EN1" node_enter (pos 0) 125 (ahead (edge_to 124 117 253 116 0))
    ∷ node "EX1" node_exit (pos 0) 124 at_end
    ∷ node "EN2" node_enter (pos 0) 127 (ahead (edge_to 126 121 282 120 0))
    ∷ node "EX2" node_exit (pos 0) 126 at_end
    ∷ node "EN3" node_enter (pos 0) 129 (ahead (edge_to 128 35 514 34 0))
    ∷ node "EX3" node_exit (pos 0) 128 at_end
    ∷ node "EN4" node_enter (pos 0) 131 (ahead (edge_to 130 12 325 13 0))
    ∷ node "EX4" node_exit (pos 0) 130 at_end
    ∷ node "EN5" node_enter (pos 0) 133 (ahead (edge_to 132 0 504 1 0))
    ∷ node "EX5" node_exit (pos 0) 132 at_end
    ∷ node "EN6" node_enter (pos 0) 135 (ahead (edge_to 134 15 144 14 0))
    ∷ node "EX6" node_exit (pos 0) 134 at_end
    ∷ node "EN7" node_enter (pos 0) 137 (ahead (edge_to 136 22 43 23 0))
    ∷ node "EX7" node_exit (pos 0) 136 at_end
    ∷ node "EN8" node_enter (pos 0) 139 (ahead (edge_to 138 10 43 11 0))
    ∷ node "EX8" node_exit (pos 0) 138 at_end
    ∷ node "EN9" node_enter (pos 0) 141 (ahead (edge_to 140 24 50 25 0))
    ∷ node "EX9" node_exit (pos 0) 140 at_end
    ∷ node "EN10" node_enter (pos 0) 143 (ahead (edge_to 142 26 50 27 0))
    ∷ node "EX10" node_exit (pos 0) 142 at_end
    ∷ []
