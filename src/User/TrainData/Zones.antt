-- ===== src/User/TrainData/Zones.antt =====
-- user/traindata/train_data.c: the zones that zone_getid_by_sensor_id and zone_getid_by_switch_id list.
use choochoo_os.Base.{List, [], ◌∷◌}
use choochoo_os.Base.Int.{ℤ, pos, negsuc}

abbrev pub sensors_a : List ℤ
sensors_a =
    pos 27
    ∷ pos 10
    ∷ pos 9
    ∷ pos 10
    ∷ pos 2
    ∷ pos 3
    ∷ pos 3
    ∷ pos 1
    ∷ pos 3
    ∷ pos 0
    ∷ negsuc 0
    ∷ pos 3
    ∷ pos 28
    ∷ pos 10
    ∷ pos 10
    ∷ pos 29
    ∷ pos 7
    ∷ pos 25
    ∷ pos 7
    ∷ pos 8
    ∷ pos 11
    ∷ pos 15
    ∷ negsuc 0
    ∷ pos 0
    ∷ negsuc 0
    ∷ pos 2
    ∷ negsuc 0
    ∷ pos 1
    ∷ pos 24
    ∷ pos 13
    ∷ pos 5
    ∷ pos 9
    ∷ pos 13
    ∷ pos 8
    ∷ pos 4
    ∷ pos 26
    ∷ pos 5
    ∷ pos 4
    ∷ pos 3
    ∷ pos 4
    ∷ pos 7
    ∷ pos 5
    ∷ pos 10
    ∷ pos 11
    ∷ pos 10
    ∷ pos 14
    ∷ pos 4
    ∷ pos 6
    ∷ pos 17
    ∷ pos 13
    ∷ pos 15
    ∷ pos 16
    ∷ pos 20
    ∷ pos 19
    ∷ pos 18
    ∷ pos 20
    ∷ pos 20
    ∷ pos 21
    ∷ pos 4
    ∷ pos 6
    ∷ pos 23
    ∷ pos 25
    ∷ pos 23
    ∷ pos 24
    ∷ pos 12
    ∷ pos 13
    ∷ pos 16
    ∷ pos 17
    ∷ pos 16
    ∷ pos 19
    ∷ pos 14
    ∷ pos 18
    ∷ pos 22
    ∷ pos 20
    ∷ pos 4
    ∷ pos 21
    ∷ pos 22
    ∷ pos 23
    ∷ pos 12
    ∷ pos 11
    ∷ []

abbrev pub sensors_b : List ℤ
sensors_b =
    pos 27
    ∷ pos 10
    ∷ pos 9
    ∷ pos 10
    ∷ pos 2
    ∷ pos 3
    ∷ pos 3
    ∷ pos 1
    ∷ pos 3
    ∷ pos 0
    ∷ pos 29
    ∷ pos 3
    ∷ pos 28
    ∷ pos 10
    ∷ pos 10
    ∷ pos 29
    ∷ pos 7
    ∷ pos 25
    ∷ pos 7
    ∷ pos 8
    ∷ pos 11
    ∷ pos 15
    ∷ negsuc 0
    ∷ pos 0
    ∷ negsuc 0
    ∷ pos 2
    ∷ negsuc 0
    ∷ pos 1
    ∷ pos 24
    ∷ pos 13
    ∷ pos 5
    ∷ pos 9
    ∷ pos 13
    ∷ pos 8
    ∷ pos 4
    ∷ pos 26
    ∷ pos 5
    ∷ pos 4
    ∷ pos 3
    ∷ pos 4
    ∷ pos 7
    ∷ pos 5
    ∷ pos 10
    ∷ pos 11
    ∷ pos 10
    ∷ pos 14
    ∷ pos 4
    ∷ pos 6
    ∷ pos 17
    ∷ pos 13
    ∷ pos 15
    ∷ pos 16
    ∷ pos 20
    ∷ pos 19
    ∷ pos 18
    ∷ pos 20
    ∷ pos 20
    ∷ pos 21
    ∷ pos 4
    ∷ pos 6
    ∷ pos 23
    ∷ pos 25
    ∷ pos 23
    ∷ pos 24
    ∷ pos 12
    ∷ pos 13
    ∷ pos 16
    ∷ pos 17
    ∷ pos 16
    ∷ pos 19
    ∷ pos 14
    ∷ pos 18
    ∷ pos 22
    ∷ pos 20
    ∷ pos 4
    ∷ pos 21
    ∷ pos 22
    ∷ pos 23
    ∷ pos 12
    ∷ pos 11
    ∷ []

abbrev pub switches_a : List ℤ
switches_a =
    pos 3
    ∷ pos 3
    ∷ pos 3
    ∷ pos 10
    ∷ pos 4
    ∷ pos 4
    ∷ pos 4
    ∷ pos 20
    ∷ pos 20
    ∷ pos 16
    ∷ pos 10
    ∷ pos 10
    ∷ pos 11
    ∷ pos 10
    ∷ pos 5
    ∷ pos 7
    ∷ pos 23
    ∷ pos 4
    ∷ pos 13
    ∷ pos 13
    ∷ pos 13
    ∷ pos 13
    ∷ []

abbrev pub switches_b : List ℤ
switches_b =
    pos 3
    ∷ pos 3
    ∷ pos 3
    ∷ pos 10
    ∷ pos 4
    ∷ pos 4
    ∷ pos 4
    ∷ pos 20
    ∷ pos 20
    ∷ pos 16
    ∷ pos 10
    ∷ pos 10
    ∷ pos 11
    ∷ pos 10
    ∷ pos 5
    ∷ pos 7
    ∷ pos 23
    ∷ pos 4
    ∷ pos 13
    ∷ pos 13
    ∷ pos 13
    ∷ pos 13
    ∷ []
