-- ===== src/Examples/Datagrams.antt =====
-- A datagram that is sent, and reported on until it is acknowledged.
use quicer.Prelude.{refl, true, some, List, [], ◌∷◌}
use quicer.Prelude.Int.{pos}
use quicer.Nif.{Status}
use quicer.Nif.Sample.{sample, sample_int, sample_bytes}
use quicer.Connection.State.{init_c_ctx}
use quicer.Dgram.{SendState, lost_suspect, acknowledged_spurious, send_dgram}
use quicer.Dgram.Life.{Reports, last, more, life, Settled, reports, life-Settled}

abbrev states : List SendState
states = SendState.sent ∷ lost_suspect ∷ acknowledged_spurious ∷ []

states-Reports : Reports states
states-Reports = more SendState.sent refl (more lost_suspect refl (last acknowledged_spurious refl))

life-Settled_example : Settled (reports 7 4 states) (
    life
      (init_c_ctx 4)
      (send_dgram sample true 7 Status.success
        (some (init_c_ctx 4))
        (sample_bytes (1 ∷ 2 ∷ []))
        (sample_int (pos 1)))
      states)
unfolding send_dgram sample sample_int sample_bytes init_c_ctx
life-Settled_example =
    life-Settled sample true 7 Status.success (init_c_ctx 4) (sample_bytes (1 ∷ 2 ∷ []))
      (sample_int (pos 1)) states states-Reports
