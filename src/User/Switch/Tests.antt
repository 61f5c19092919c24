-- ===== src/User/Switch/Tests.antt =====
-- Runs of the switch server.
use choochoo_os.Base.{◌≡◌, refl, some, List, [], ◌∷◌}
use choochoo_os.Base.Int.{pos, negsuc}
use choochoo_os.User.Waiting.{take_all}
use choochoo_os.User.Switch.{
  switch_mode_s, switch_mode_c, switch_set, switch_wait, SwitchRequest, Server, start, Output,
  reply, io_marklin_set_switch, render_switch, changed, handle, handle_type, set_switch, set_own,
  set_paired, switch_turnout, switch_other, unblock_on_switch, get_switch_index, other_of,
}
use choochoo_os.User.Switch.Pairs.{IsPaired, handle-IsPaired}

-- Task 7 waits for any turnout, and none has been set.
abbrev fresh : Server
fresh = record start { requests_queue = record { tid = 7; switch_id = negsuc 0 } ∷ [] }

abbrev set_154 : SwitchRequest
set_154 = record { type = switch_set; switch_id = pos 154; mode = switch_mode_s }

abbrev commands : List Output
commands =
    reply 4 (changed switch_set (pos 154) switch_mode_s)
    ∷ io_marklin_set_switch (pos 154) switch_mode_s
    ∷ reply 7 (changed switch_wait (pos 154) switch_mode_s)
    ∷ io_marklin_set_switch (pos 153) switch_mode_c
    ∷ render_switch (pos 153) switch_mode_c
    ∷ []

unfoldable after : Server
unfolding set_switch set_own set_paired switch_turnout switch_other unblock_on_switch
    get_switch_index other_of take_all
after = (set_switch (pos 154) switch_mode_s fresh).0

set_154-run : handle 4 set_154 fresh ≡ some (after, commands)
unfolding handle handle_type set_switch set_own set_paired switch_turnout switch_other
    unblock_on_switch get_switch_index other_of after take_all
set_154-run = refl

handle-IsPaired_example : IsPaired after
handle-IsPaired_example =
    handle-IsPaired 4 set_154 fresh after commands set_154-run (record { first = tt; second = tt })
