-- ===== src/Client.antt =====
-- src/controller/client/WebXClient.h: one client, its ping state and its bitrate means. `now` is the
-- reading of the clock in a call, in nanoseconds.
use webx_engine.Common.{ℕ, ◌*◌, Option, none, some, ◌&&◌, leb, ◌-◌, if◌then◌else◌}
use webx_engine.Common.Floats.{Floats}
use webx_engine.Message.{Version}
use webx_engine.Quality.{Quality}
use webx_engine.Bitrate.{
  BitrateCalculator, ms, older_than, has_value, value, new_calculator, update_latency,
  update_bitrate_data, reset_bitrate_data, set_current_group_image_mbps,
  calculate_average_bitrate_data,
}

pub data PingStatus : Type 0 where
  waiting_to_ping requires_ping waiting_for_pong pong_timeout : PingStatus

abbrev pub ping_wait_interval_ms : ℕ
ping_wait_interval_ms = 1000

abbrev pub quality_verification_period_ms : ℕ
quality_verification_period_ms = 10000

module _ (fl : Floats) where
  open fl use {Float}

  -- `WebXClientBitrateMeans`
  pub record BitrateMeans : Type 0 where
    pub mean_image_mbps : Float
    pub mean_bitrate_mbps : Float
    pub mean_rtt_latency_ms : Float
    pub mean_bitrate_ratio : Float

  pub record Client : Type 0 where
    pub id : ℕ
    pub index : ℕ
    pub client_version : Version
    pub max_quality : Quality
    pub ping_response_timeout_ms : ℕ
    pub ping_status : PingStatus
    pub ping_sent_time : ℕ
    pub pong_received_time : ℕ
    pub bitrate_calculator : BitrateCalculator fl
    pub bitrate_means : Option BitrateMeans
    pub last_quality_verification_time : ℕ

  -- The constructor.
  unfoldable pub new_client : ℕ → ℕ → ℕ → Version → Quality → ℕ → Client
  new_client now id index client_version max_quality ping_response_timeout_ms = record {
    id = id;
    index = index;
    client_version = client_version;
    max_quality = max_quality;
    ping_response_timeout_ms = ping_response_timeout_ms;
    ping_status = waiting_to_ping;
    ping_sent_time = now;
    pong_received_time = now;
    bitrate_calculator = new_calculator fl;
    bitrate_means = none;
    last_quality_verification_time = now;
  }

  -- `setMaxQuality`
  unfoldable pub set_max_quality : Quality → Client → Client
  set_max_quality quality c = record c { max_quality = quality }

  -- The status after the times since the last pong and the last ping.
  abbrev pub next_status : ℕ → Client → PingStatus → PingStatus
  next_status now c waiting_to_ping =
      if older_than ping_wait_interval_ms now c.pong_received_time
      then requires_ping
      else waiting_to_ping
  next_status now c waiting_for_pong =
      if older_than c.ping_response_timeout_ms now c.ping_sent_time
      then pong_timeout
      else waiting_for_pong
  next_status now c requires_ping = requires_ping
  next_status now c pong_timeout = pong_timeout

  -- `updatePingStatus`
  unfoldable pub update_ping_status : ℕ → Client → Client
  update_ping_status now c = record c { ping_status = next_status now c c.ping_status }

  -- `onPingSent`
  unfoldable pub on_ping_sent : ℕ → Client → Client
  on_ping_sent now c = record c { ping_sent_time = now; ping_status = waiting_for_pong }

  -- `onPongReceived`
  unfoldable pub on_pong_received : ℕ → ℕ → ℕ → Client → Client
  on_pong_received now send_timestamp_ms recv_timestamp_ms c = record c {
    pong_received_time = now;
    ping_status = waiting_to_ping;
    bitrate_calculator =
        update_latency fl now send_timestamp_ms recv_timestamp_ms c.bitrate_calculator;
  }

  -- `onDataAckReceived`
  unfoldable pub on_data_ack_received : ℕ → ℕ → ℕ → ℕ → Client → Client
  on_data_ack_received now send_timestamp_ms recv_timestamp_ms data_length c = record c {
    bitrate_calculator =
        update_bitrate_data fl now send_timestamp_ms recv_timestamp_ms data_length
          c.bitrate_calculator;
  }

  -- `setCurrentGroupImageMbps`
  unfoldable pub set_group_image_mbps : Option Float → Client → Client
  set_group_image_mbps mbps c = record c {
    bitrate_calculator = set_current_group_image_mbps fl mbps c.bitrate_calculator;
  }

  -- `resetBitrateData`
  unfoldable pub reset_bitrate : Option Float → Client → Client
  reset_bitrate mbps c = record c {
    bitrate_calculator = reset_bitrate_data fl mbps c.bitrate_calculator;
    bitrate_means = none;
  }

  -- The means of a verification: new ones if all four values are there, else those before.
  abbrev pub verified_means :
      Option Float → BitrateCalculator fl → Option BitrateMeans → Option BitrateMeans
  verified_means average k before =
      if has_value average
        && has_value k.mean_bitrate_mbps
        && has_value k.mean_bitrate_ratio
        && has_value k.mean_rtt_latency_ms
      then some (record {
        mean_image_mbps = value fl average;
        mean_bitrate_mbps = value fl k.mean_bitrate_mbps;
        mean_rtt_latency_ms = value fl k.mean_rtt_latency_ms;
        mean_bitrate_ratio = value fl k.mean_bitrate_ratio;
      })
      else before

  -- `performQualityVerification`
  unfoldable pub perform_quality_verification : ℕ → Option Float → Client → Client
  perform_quality_verification now average c =
      let k = calculate_average_bitrate_data fl now c.bitrate_calculator in
      if leb (quality_verification_period_ms * ms) (now - c.last_quality_verification_time)
      then record c {
        bitrate_calculator = k;
        bitrate_means = verified_means average k c.bitrate_means;
        last_quality_verification_time = now;
      }
      else record c { bitrate_means = none }
