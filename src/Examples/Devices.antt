-- ===== src/Examples/Devices.antt =====
-- The ring of a USB channel, the paths and the list of the assets, on concrete inputs.
use telegraph_stm_fw.Base.{[], ◌∷◌}
use telegraph_stm_fw.Channel.{empty, chan_put, chan_take}
use telegraph_stm_fw.Channel.Queue.{Holds-empty, Put, chan_put-Put, TakenOff, chan_take-TakenOff}

chan_put-Put_example : Put empty [] (3 ∷ 4 ∷ []) (chan_put (3 ∷ 4 ∷ []) empty)
chan_put-Put_example = chan_put-Put (3 ∷ 4 ∷ []) empty [] Holds-empty

chan_take-TakenOff_example : TakenOff (3 ∷ 4 ∷ []) 1 (chan_take 1 (chan_put (3 ∷ 4 ∷ []) empty))
chan_take-TakenOff_example =
    chan_take-TakenOff 1 (chan_put (3 ∷ 4 ∷ []) empty) (3 ∷ 4 ∷ [])
      (chan_put-Put (3 ∷ 4 ∷ []) empty [] Holds-empty).holds
