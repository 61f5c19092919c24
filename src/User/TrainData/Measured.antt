-- ===== src/User/TrainData/Measured.antt =====
-- user/traindata/train_data.h: what was measured of the six trains. A row is a train; the columns are
-- the speeds from 3 to 14, or the times of a short move in steps of a quarter of a second.
use choochoo_os.Base.{ℕ, List, [], ◌∷◌}

abbrev pub train_data_short_move_time_increment : ℕ
train_data_short_move_time_increment = 250

abbrev pub train_data_short_move_speed : List ℕ
train_data_short_move_speed = 4 ∷ 4 ∷ 4 ∷ 7 ∷ 8 ∷ 4 ∷ []

abbrev pub train_data_trains : List ℕ
train_data_trains = 2 ∷ 47 ∷ 54 ∷ 55 ∷ 58 ∷ 77 ∷ []

abbrev pub train_data_speeds : List ℕ
train_data_speeds = 3 ∷ 4 ∷ 5 ∷ 6 ∷ 7 ∷ 8 ∷ 9 ∷ 10 ∷ 11 ∷ 12 ∷ 13 ∷ 14 ∷ []

abbrev pub train_data_vel_table : List (List ℕ)
train_data_vel_table =
    (125 ∷ 170 ∷ 234 ∷ 289 ∷ 351 ∷ 407 ∷ 467 ∷ 526 ∷ 588 ∷ 644 ∷ 696 ∷ 698 ∷ [])
    ∷ (120 ∷ 180 ∷ 252 ∷ 311 ∷ 375 ∷ 418 ∷ 472 ∷ 516 ∷ 574 ∷ 628 ∷ 669 ∷ 676 ∷ [])
    ∷ (126 ∷ 174 ∷ 231 ∷ 285 ∷ 344 ∷ 385 ∷ 435 ∷ 482 ∷ 535 ∷ 590 ∷ 599 ∷ 606 ∷ [])
    ∷ (6 ∷ 26 ∷ 53 ∷ 105 ∷ 162 ∷ 202 ∷ 255 ∷ 315 ∷ 373 ∷ 428 ∷ 479 ∷ 517 ∷ [])
    ∷ (21 ∷ 58 ∷ 86 ∷ 121 ∷ 171 ∷ 191 ∷ 296 ∷ 357 ∷ 438 ∷ 510 ∷ 589 ∷ 626 ∷ [])
    ∷ (31 ∷ 70 ∷ 129 ∷ 169 ∷ 221 ∷ 278 ∷ 335 ∷ 403 ∷ 473 ∷ 544 ∷ 618 ∷ 658 ∷ [])
    ∷ []

abbrev pub train_data_stop_dist_table : List (List ℕ)
train_data_stop_dist_table =
    (158 ∷ 240 ∷ 290 ∷ 348 ∷ 455 ∷ 532 ∷ 589 ∷ 675 ∷ 810 ∷ 855 ∷ 976 ∷ 1040 ∷ [])
    ∷ (180 ∷ 250 ∷ 293 ∷ 319 ∷ 421 ∷ 490 ∷ 549 ∷ 615 ∷ 803 ∷ 790 ∷ 864 ∷ 882 ∷ [])
    ∷ (149 ∷ 232 ∷ 304 ∷ 382 ∷ 450 ∷ 551 ∷ 617 ∷ 682 ∷ 835 ∷ 870 ∷ 909 ∷ 943 ∷ [])
    ∷ (80 ∷ 100 ∷ 271 ∷ 109 ∷ 126 ∷ 125 ∷ 281 ∷ 237 ∷ 460 ∷ 587 ∷ 760 ∷ 1050 ∷ [])
    ∷ (5 ∷ 20 ∷ 42 ∷ 93 ∷ 164 ∷ 359 ∷ 319 ∷ 490 ∷ 580 ∷ 726 ∷ 945 ∷ 1245 ∷ [])
    ∷ (60 ∷ 120 ∷ 151 ∷ 235 ∷ 205 ∷ 452 ∷ 604 ∷ 427 ∷ 779 ∷ 1042 ∷ 1370 ∷ 1700 ∷ [])
    ∷ []

-- C fills the two columns that the source leaves out with 0.
abbrev pub train_data_stop_time_table : List (List ℕ)
train_data_stop_time_table =
    (2455 ∷ 0 ∷ 0 ∷ 2713 ∷ 0 ∷ 0 ∷ 2780 ∷ 0 ∷ 0 ∷ 2988 ∷ 0 ∷ 0 ∷ [])
    ∷ (2377 ∷ 0 ∷ 0 ∷ 2672 ∷ 0 ∷ 0 ∷ 2641 ∷ 0 ∷ 0 ∷ 2865 ∷ 0 ∷ 0 ∷ [])
    ∷ (3485 ∷ 0 ∷ 0 ∷ 3663 ∷ 0 ∷ 0 ∷ 3860 ∷ 0 ∷ 0 ∷ 4332 ∷ 0 ∷ 0 ∷ [])
    ∷ (3485 ∷ 0 ∷ 0 ∷ 3663 ∷ 0 ∷ 0 ∷ 3860 ∷ 0 ∷ 0 ∷ 4332 ∷ 0 ∷ 0 ∷ [])
    ∷ (3485 ∷ 0 ∷ 0 ∷ 3663 ∷ 0 ∷ 0 ∷ 3860 ∷ 0 ∷ 0 ∷ 4332 ∷ 0 ∷ 0 ∷ [])
    ∷ (3495 ∷ 0 ∷ 0 ∷ 3853 ∷ 0 ∷ 0 ∷ 4543 ∷ 0 ∷ 0 ∷ 5190 ∷ 0 ∷ 0 ∷ [])
    ∷ []

abbrev pub train_data_short_move_dist_table : List (List ℕ)
train_data_short_move_dist_table =
    (0 ∷ 10 ∷ 17 ∷ 33 ∷ 66 ∷ 97 ∷ 132 ∷ 186 ∷ 235 ∷ 305 ∷ 376 ∷ 475 ∷ 601 ∷ 725 ∷ 890 ∷ 992 ∷ 1118
      ∷ [])
    ∷ (0 ∷ 8 ∷ 24 ∷ 39 ∷ 73 ∷ 105 ∷ 152 ∷ 203 ∷ 269 ∷ 334 ∷ 435 ∷ 555 ∷ 730 ∷ 873 ∷ 1002 ∷ 1110
        ∷ 1175 ∷ [])
    ∷ (0 ∷ 10 ∷ 25 ∷ 72 ∷ 118 ∷ 192 ∷ 245 ∷ 290 ∷ 330 ∷ 384 ∷ 446 ∷ 477 ∷ 540 ∷ 575 ∷ 639 ∷ 672
        ∷ 714 ∷ [])
    ∷ (0 ∷ 10 ∷ 25 ∷ 72 ∷ 118 ∷ 192 ∷ 245 ∷ 290 ∷ 330 ∷ 384 ∷ 446 ∷ 477 ∷ 540 ∷ 575 ∷ 639 ∷ 672
        ∷ 714 ∷ [])
    ∷ (0 ∷ 10 ∷ 25 ∷ 72 ∷ 118 ∷ 192 ∷ 245 ∷ 290 ∷ 330 ∷ 384 ∷ 446 ∷ 477 ∷ 540 ∷ 575 ∷ 639 ∷ 672
        ∷ 714 ∷ [])
    ∷ (0 ∷ 17 ∷ 58 ∷ 97 ∷ 154 ∷ 209 ∷ 300 ∷ 351 ∷ 405 ∷ 458 ∷ 515 ∷ 570 ∷ 634 ∷ 690 ∷ 745 ∷ 805
        ∷ 849 ∷ [])
    ∷ []
