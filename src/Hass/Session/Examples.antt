-- ===== src/Hass/Session/Examples.antt =====
-- Messages of a session.
use telegraph_stm_fw.Base.{ℕ, ◌+◌, ◌≡◌, refl, [], ◌∷◌, ◌++◌, some, true, length, arith}
use telegraph_stm_fw.Hass.Mqtt.{
  publish_body, put_str, packet_head, put_varint, varint_loop, publish_type,
}
use telegraph_stm_fw.Hass.Session.{Socket, Session, would_block, dropped, message, nothing}
use telegraph_stm_fw.Hass.Session.Delivery.{
  Publication, IsSendable, message_of, stream, polls, polls-stream,
}

-- A socket that has nothing to read.
abbrev still : Socket
still = record {
  World = ℕ;
  write = λ bytes w. (some (length bytes), w);
  read = λ n w. (would_block, w);
  now = λ w. w;
  nap = λ w. w + 10;
}

abbrev dim : Publication
dim = record { topic = b'a' ∷ b'/' ∷ b'b' ∷ []; payload = b'4' ∷ []; retain = true }

dim-IsSendable : IsSendable dim
unfolding publish_body put_str
dim-IsSendable = (put_str dim.topic ++ dim.payload, refl, omega arith)

abbrev waiting : Session ℕ
waiting = record {
  world = 0;
  packet_id = 1;
  last_sent_ms = 0;
  keepalive_s = 60;
  rx = stream (dim ∷ dim ∷ []);
  pending = 0;
}

polls-stream_example :
    polls still 3 waiting ≡ message (message_of dim) ∷ message (message_of dim) ∷ nothing ∷ []
unfolding publish_body put_str packet_head put_varint varint_loop publish_type dropped
polls-stream_example =
    polls-stream still (λ n w. refl) (dim ∷ dim ∷ []) waiting (dim-IsSendable, (dim-IsSendable, tt))
      refl (omega arith)
