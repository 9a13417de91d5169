-- ===== src/Rtl/Witnesses.antt =====
-- The theorems on the stream count at a device that fails to start its read thread.
use sdr_slc_rtld.Base.{◌≡◌, ◌-◌, ◌+◌, refl, true, false, [], ◌⊎◌}
use sdr_slc_rtld.Base.Int.{negsuc}
use sdr_slc_rtld.Rtl.Bridge.{Device, Bridge, initial_bridge}
use sdr_slc_rtld.Rtl.Lifecycle.{bridge_start, bridge_stop}
use sdr_slc_rtld.Rtl.Counted.{IsCounted, bridge_start-IsCounted, bridge_stop-IsCounted}

abbrev broken_dongle : Device
broken_dongle = record { status = λ past c. negsuc 0; value = λ past c. 0; gains = [] }

bridge_start-IsCounted_example :
    IsCounted (bridge_start broken_dongle initial_bridge).1
    × ((((bridge_start broken_dongle initial_bridge).0 ≡ true)
          × ((bridge_start broken_dongle initial_bridge).1.stream_count
              ≡ initial_bridge.stream_count + 1))
        ⊎ (((bridge_start broken_dongle initial_bridge).0 ≡ false)
            × ((bridge_start broken_dongle initial_bridge).1.stream_count ≡ 0)
            × (initial_bridge.stream_count ≡ 0)))
bridge_start-IsCounted_example = bridge_start-IsCounted broken_dongle initial_bridge refl

abbrev two_streams : Bridge
two_streams = record initial_bridge { running = true; stream_count = 2 }

bridge_stop-IsCounted_example :
    IsCounted (bridge_stop two_streams)
    × ((bridge_stop two_streams).stream_count ≡ two_streams.stream_count - 1)
bridge_stop-IsCounted_example = bridge_stop-IsCounted two_streams refl
