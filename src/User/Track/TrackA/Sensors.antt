-- ===== src/User/Track/TrackA/Sensors.antt =====
-- user/traintrack/track_data.c: the sensors of track A.
use choochoo_os.Base.{List, [], ◌∷◌}
use choochoo_os.Base.Int.{pos}
use choochoo_os.User.Track.{TrackNode, node, ahead, edge_to, node_sensor}

abbrev pub sensors_a : List TrackNode
sensors_a =
    node "A1" node_sensor (pos 0) 1 (ahead (edge_to 0 103 231 102 0))
    ∷ node "A2" node_sensor (pos 1) 0 (ahead (edge_to 1 133 504 132 0))
    ∷ node "A3" node_sensor (pos 2) 3 (ahead (edge_to 2 106 43 107 0))
    ∷ node "A4" node_sensor (pos 3) 2 (ahead (edge_to 3 31 437 30 0))
    ∷ node "A5" node_sensor (pos 4) 5 (ahead (edge_to 4 85 231 84 0))
    ∷ node "A6" node_sensor (pos 5) 4 (ahead (edge_to 5 25 642 24 0))
    ∷ node "A7" node_sensor (pos 6) 7 (ahead (edge_to 6 27 470 26 0))
    ∷ node "A8" node_sensor (pos 7) 6 (ahead (edge_to 7 83 229 82 1))
    ∷ node "A9" node_sensor (pos 8) 9 (ahead (edge_to 8 23 289 22 0))
    ∷ node "A10" node_sensor (pos 9) 8 (ahead (edge_to 9 81 229 80 1))
    ∷ node "A11" node_sensor (pos 10) 11 (ahead (edge_to 10 81 518 80 0))
    ∷ node "A12" node_sensor (pos 11) 10 (ahead (edge_to 11 139 43 138 0))
    ∷ node "A13" node_sensor (pos 12) 13 (ahead (edge_to 12 87 236 86 1))
    ∷ node "A14" node_sensor (pos 13) 12 (ahead (edge_to 13 131 325 130 0))
    ∷ node "A15" node_sensor (pos 14) 15 (ahead (edge_to 14 135 144 134 0))
    ∷ node "A16" node_sensor (pos 15) 14 (ahead (edge_to 15 87 417 86 0))
    ∷ []

abbrev pub sensors_b : List TrackNode
sensors_b =
    node "B1" node_sensor (pos 16) 17 (ahead (edge_to 16 61 404 60 0))
    ∷ node "B2" node_sensor (pos 17) 16 (ahead (edge_to 17 111 231 110 0))
    ∷ node "B3" node_sensor (pos 18) 19 (ahead (edge_to 18 33 201 32 0))
    ∷ node "B4" node_sensor (pos 19) 18 (ahead (edge_to 19 111 239 110 1))
    ∷ node "B5" node_sensor (pos 20) 21 (ahead (edge_to 20 50 404 51 0))
    ∷ node "B6" node_sensor (pos 21) 20 (ahead (edge_to 21 105 231 104 0))
    ∷ node "B7" node_sensor (pos 22) 23 (ahead (edge_to 22 9 289 8 0))
    ∷ node "B8" node_sensor (pos 23) 22 (ahead (edge_to 23 137 43 136 0))
    ∷ node "B9" node_sensor (pos 24) 25 (ahead (edge_to 24 4 642 5 0))
    ∷ node "B10" node_sensor (pos 25) 24 (ahead (edge_to 25 141 50 140 0))
    ∷ node "B11" node_sensor (pos 26) 27 (ahead (edge_to 26 7 470 6 0))
    ∷ node "B12" node_sensor (pos 27) 26 (ahead (edge_to 27 143 50 142 0))
    ∷ node "B13" node_sensor (pos 28) 29 (ahead (edge_to 28 119 239 118 1))
    ∷ node "B14" node_sensor (pos 29) 28 (ahead (edge_to 29 63 201 62 0))
    ∷ node "B15" node_sensor (pos 30) 31 (ahead (edge_to 30 2 437 3 0))
    ∷ node "B16" node_sensor (pos 31) 30 (ahead (edge_to 31 108 50 109 0))
    ∷ []

abbrev pub sensors_c : List TrackNode
sensors_c =
    node "C1" node_sensor (pos 32) 33 (ahead (edge_to 32 19 201 18 0))
    ∷ node "C2" node_sensor (pos 33) 32 (ahead (edge_to 33 117 246 116 1))
    ∷ node "C3" node_sensor (pos 34) 35 (ahead (edge_to 34 129 514 128 0))
    ∷ node "C4" node_sensor (pos 35) 34 (ahead (edge_to 35 89 239 88 0))
    ∷ node "C5" node_sensor (pos 36) 37 (ahead (edge_to 36 90 61 91 0))
    ∷ node "C6" node_sensor (pos 37) 36 (ahead (edge_to 37 109 433 108 0))
    ∷ node "C7" node_sensor (pos 38) 39 (ahead (edge_to 38 115 231 114 0))
    ∷ node "C8" node_sensor (pos 39) 38 (ahead (edge_to 39 84 128 85 0))
    ∷ node "C9" node_sensor (pos 40) 41 (ahead (edge_to 40 109 326 108 1))
    ∷ node "C10" node_sensor (pos 41) 40 (ahead (edge_to 41 110 128 111 0))
    ∷ node "C11" node_sensor (pos 42) 43 (ahead (edge_to 42 104 120 105 0))
    ∷ node "C12" node_sensor (pos 43) 42 (ahead (edge_to 43 107 333 106 1))
    ∷ node "C13" node_sensor (pos 44) 45 (ahead (edge_to 44 70 875 71 0))
    ∷ node "C14" node_sensor (pos 45) 44 (ahead (edge_to 45 100 43 101 0))
    ∷ node "C15" node_sensor (pos 46) 47 (ahead (edge_to 46 59 404 58 0))
    ∷ node "C16" node_sensor (pos 47) 46 (ahead (edge_to 47 91 239 90 0))
    ∷ []

abbrev pub sensors_d : List TrackNode
sensors_d =
    node "D1" node_sensor (pos 48) 49 (ahead (edge_to 48 121 246 120 1))
    ∷ node "D2" node_sensor (pos 49) 48 (ahead (edge_to 49 67 201 66 0))
    ∷ node "D3" node_sensor (pos 50) 51 (ahead (edge_to 50 99 239 98 0))
    ∷ node "D4" node_sensor (pos 51) 50 (ahead (edge_to 51 21 404 20 0))
    ∷ node "D5" node_sensor (pos 52) 53 (ahead (edge_to 52 69 376 68 0))
    ∷ node "D6" node_sensor (pos 53) 52 (ahead (edge_to 53 97 239 96 1))
    ∷ node "D7" node_sensor (pos 54) 55 (ahead (edge_to 54 97 309 96 0))
    ∷ node "D8" node_sensor (pos 55) 54 (ahead (edge_to 55 71 384 70 0))
    ∷ node "D9" node_sensor (pos 56) 57 (ahead (edge_to 56 75 369 74 0))
    ∷ node "D10" node_sensor (pos 57) 56 (ahead (edge_to 57 95 316 94 0))
    ∷ node "D11" node_sensor (pos 58) 59 (ahead (edge_to 58 47 404 46 0))
    ∷ node "D12" node_sensor (pos 59) 58 (ahead (edge_to 59 93 231 92 0))
    ∷ node "D13" node_sensor (pos 60) 61 (ahead (edge_to 60 17 404 16 0))
    ∷ node "D14" node_sensor (pos 61) 60 (ahead (edge_to 61 113 239 112 0))
    ∷ node "D15" node_sensor (pos 62) 63 (ahead (edge_to 62 28 201 29 0))
    ∷ node "D16" node_sensor (pos 63) 62 (ahead (edge_to 63 113 246 112 1))
    ∷ []

abbrev pub sensors_e : List TrackNode
sensors_e =
    node "E1" node_sensor (pos 64) 65 (ahead (edge_to 64 123 239 122 1))
    ∷ node "E2" node_sensor (pos 65) 64 (ahead (edge_to 65 78 201 79 0))
    ∷ node "E3" node_sensor (pos 66) 67 (ahead (edge_to 66 48 201 49 0))
    ∷ node "E4" node_sensor (pos 67) 66 (ahead (edge_to 67 99 239 98 1))
    ∷ node "E5" node_sensor (pos 68) 69 (ahead (edge_to 68 53 376 52 0))
    ∷ node "E6" node_sensor (pos 69) 68 (ahead (edge_to 69 98 50 99 0))
    ∷ node "E7" node_sensor (pos 70) 71 (ahead (edge_to 70 54 384 55 0))
    ∷ node "E8" node_sensor (pos 71) 70 (ahead (edge_to 71 45 875 44 0))
    ∷ node "E9" node_sensor (pos 72) 73 (ahead (edge_to 72 95 239 94 1))
    ∷ node "E10" node_sensor (pos 73) 72 (ahead (edge_to 73 76 376 77 0))
    ∷ node "E11" node_sensor (pos 74) 75 (ahead (edge_to 74 57 369 56 0))
    ∷ node "E12" node_sensor (pos 75) 74 (ahead (edge_to 75 92 50 93 0))
    ∷ node "E13" node_sensor (pos 76) 77 (ahead (edge_to 76 112 43 113 0))
    ∷ node "E14" node_sensor (pos 77) 76 (ahead (edge_to 77 72 376 73 0))
    ∷ node "E15" node_sensor (pos 78) 79 (ahead (edge_to 78 105 246 104 1))
    ∷ node "E16" node_sensor (pos 79) 78 (ahead (edge_to 79 64 201 65 0))
    ∷ []
