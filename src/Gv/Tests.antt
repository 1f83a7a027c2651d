-- ===== src/Gv/Tests.antt =====
-- Runs of Start: on a stack that takes everything, on one that refuses the NIC, and on one that
-- refuses the TCP delay. The world counts the calls.
use an_app.Base.{ℕ, suc, ◌≡◌, refl, true, false, none, some, length}
use an_app.Script.{Sys, run}
use an_app.Gv.{StackCall, create_nic, set_delay, start, close_on_error}
use an_app.Gv.Order.{
  Ends, sets_up, set_up, has_error, start-sets_up, handlers_first, start-Ends,
  start_sets_handlers_first,
}

abbrev refuse_nic : Sys ℕ StackCall ℕ
refuse_nic w c = (elim c [ create_nic mtu ↦ some 7 | _ ↦ none ], suc w)

abbrev refuse_delay : Sys ℕ StackCall ℕ
refuse_delay w c = (elim c [ set_delay on ↦ some 7 | _ ↦ none ], suc w)

-- 18 calls, the last of which fails, and Close.
nic_run : length (start refuse_nic 1500 0).calls ≡ 19
unfolding start run close_on_error
nic_run = refl

-- The text of the error says nothing about its cause.
delay_run :
    (start refuse_delay 1500 0).err ≡ some (record { text = "set TCP delay: "; cause = none })
unfolding start run close_on_error
delay_run = refl

start-sets_up_example :
    ((start refuse_nic 1500 0).calls ≡ (sets_up refuse_nic (set_up 1500) false 0).0)
    × (has_error (start refuse_nic 1500 0).err ≡ (sets_up refuse_nic (set_up 1500) false 0).1)
start-sets_up_example = start-sets_up refuse_nic 1500 0

ends_run : Ends refuse_nic 1500 (start refuse_nic 1500 0)
ends_run = start-Ends refuse_nic 1500 0

handlers_run : handlers_first false false (start refuse_nic 1500 0).calls ≡ true
handlers_run = start_sets_handlers_first refuse_nic 1500 0
