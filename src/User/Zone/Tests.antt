-- ===== src/User/Zone/Tests.antt =====
-- Runs of the zone server.
use choochoo_os.Base.{◌≡◌, refl, true, false, some, update, List, [], ◌∷◌, arith}
use choochoo_os.Base.Int.{pos, negsuc}
use choochoo_os.ByteQueue.Defs
use choochoo_os.ByteQueue.Defs.{BQueue}
use choochoo_os.ByteQueue.Refine.{Holds}
use choochoo_os.User.Waiting.{take_first}
use choochoo_os.User.Zone.{
  zone_reserve, zone_unreserve, zone_wait, ZoneRequest, Server, Output, reply,
  render_unreserve_zone, Answers, response, unreserve_zone, is_zone_reserved,
  reservation_wait_unblock, unblock_all_waiting, drain, handle, handle_type,
}
use choochoo_os.User.Zone.Safety.{KeptOrReleased, handle_keeps}
use choochoo_os.User.Zone.Replies.{TruthfulReply, handle_truthful}
use choochoo_os.User.Zone.Wakeups.{Freed, unreserve_wakes_first}

-- Task 5 waits for any change.
abbrev one_waiting : BQueue
one_waiting = record { que = λ _. 5; front_ptr = 0; back_ptr = 1; len = pos 1; is_full = false }

-- Train 24 holds zone 3, task 11 waits for it on behalf of train 58.
abbrev held : Server
held = record {
  reservations = λ z. update (λ _. pos 0) 3 (pos 24) z;
  zone_requests = record { tid = 11; train = pos 58; zone = 3; time = pos 10 } ∷ [];
  wait_change_requests = one_waiting;
  pacman_server = negsuc 0;
}

abbrev answers : Answers
answers = record { time = pos 20; pacman = pos 30; pac_train = pos 24 }

abbrev give_back : ZoneRequest
give_back = record { type = zone_unreserve; train = pos 24; zone = 3; unreserve_all = pos 0 }

abbrev take_it : ZoneRequest
take_it = record { type = zone_reserve; train = pos 58; zone = 3; unreserve_all = pos 0 }

abbrev freed : List Output
freed =
    render_unreserve_zone 3
    ∷ reply 4 (record (response zone_unreserve) { unreserve = true })
    ∷ reply 11 (response zone_wait)
    ∷ reply 5 (response zone_wait)
    ∷ []

abbrev free : Server
free = record {
  reservations = λ z. update (update (λ _. pos 0) 3 (pos 24)) 3 (pos 0) z;
  zone_requests = [];
  wait_change_requests = record one_waiting { front_ptr = 1; len = pos 0 };
  pacman_server = negsuc 0;
}

give_back-run : handle answers 4 give_back held ≡ some (free, freed)
unfolding handle handle_type unreserve_zone reservation_wait_unblock is_zone_reserved take_first
    unblock_all_waiting drain Defs.pop Defs.length
give_back-run = refl

handle_keeps_example : KeptOrReleased give_back zone_unreserve (pos 24) 3 (free.reservations 3)
handle_keeps_example =
    handle_keeps answers 4 give_back held free freed (pos 24) 3 give_back-run refl (ground arith)

handle_truthful_example : TruthfulReply zone_unreserve 4 give_back free.reservations freed
handle_truthful_example = handle_truthful answers 4 give_back held free freed give_back-run

one_waiting-Holds : Holds one_waiting (5 ∷ [])
one_waiting-Holds = ground arith

unreserve_wakes_first_example :
    Freed 3 [] (reply 11 (response zone_wait)) (handle answers 4 give_back held)
unreserve_wakes_first_example =
    unreserve_wakes_first answers 4 give_back held [] []
      (record { tid = 11; train = pos 58; zone = 3; time = pos 10 }) refl (omega arith) refl refl tt
      refl
