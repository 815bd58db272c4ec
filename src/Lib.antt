-- ===== src/Lib.antt =====
-- Telegraph: the firmware of a clock with panels. The STM32 (boards/hazk03-stm32f105rb) drives the
-- display and keeps the time; an edge MCU runs the wapps (wapps/) and talks to it over a UART, in the
-- frames of ipc/. This library models the protocol and its server on the STM32, what the server
-- drives there (the panels, the fonts, the settings in the flash), the policy by which the wapp
-- tg-time sets the two clocks, the broker through which the wapps share the link, the texts and the
-- MQTT session of the bridge to Home Assistant, and the update of the STM32's firmware by tg-ota.
-- Sources without a folder are in boards/hazk03-stm32f105rb/src.
--
-- The parts and their files:
--   Ipc/Crc           ipc/src/ipc_crc16.c: ipc_crc16 with its table of 16 entries. Ipc/Crc/Bitwise has
--                     the bit-serial register that it stands for.
--   Ipc/Wire          ipc/include/telegraph/ipc.h: the frame and the little-endian fields.
--   Ipc/Encode        ipc/src/ipc_encode.c: ipc_encode, ipc_encode_ack, ipc_encode_nack. The result is
--                     an error code or the bytes written.
--   Ipc/Parser        ipc/src/ipc_parser.c: discard, resync, drain, parser_push, parser_timeout. The
--                     buffer is the list of its first `len` bytes. The callback does not touch the
--                     parser, thus its calls are a list in the result, each with the counts it sees.
--   Ipc/Payload       ipc/src/ipc_payload.c: the checks of three payloads.
--   Channel           boards/hazk03-stm32f105rb/src/stm32_ipc.c: the ring of a USB channel
--                     (ipc_chan_put, ipc_chan_take).
--   Server            the rest of stm32_ipc.c. Server/Board is the interface to what the server calls
--                     and does not hold: UART, clock, files, USB devices, display (hazk03.h). Each
--                     call works on a world that the server passes along; Lawful is what is relied on.
--                     Server/Link has the state (Ctx) and ipc_send, ipc_ack, ipc_nack, ipc_log;
--                     Server/Settings, Server/Panels, Server/Storage and Server/UsbPort the handlers
--                     of the opcodes; Server/Dispatch the switch of ipc_on_frame and one run of the
--                     loop of ipc_server; Server/Run a run of it from its start, with the readers of
--                     the channels and other tasks among the runs of the loop; Server/Assets the
--                     names of assets (assets.c).
--   Flash             stm32_flash.c: read_slot (config_read_slot), config_load, config_save, over the
--                     interface Mtd of the driver. Flash/Record is about the bytes of a record,
--                     Flash/Keep about a store that holds settings, Flash/Loss about saves that
--                     fail, Flash/Power about losses of power.
--   Panel             sm1626d.c: the two images of a panel, draw_pixel, draw_bitmap, begin, commit,
--                     swap_now, and the bits of a row that the scan sends. Panel/Frames has the steps
--                     of a writer with the swaps of the interrupt among them.
--   Font              fontlookup.c (utf8, find, next), font5x7.c (Font/Ascii), fontcompact.c
--                     (Font/Compact), fontext.c (Font/Load), sm1626d_text.c (text_width, Font/Render).
--   Display           stm32_display.c: Display/Settings has the requests that change the settings, the
--                     light and the period without light; Display/Anim the animations of a panel;
--                     Display/Layout the lines, columns and rows of a text; Display/Screen one panel
--                     with its animation and its owner, and the requests that change it.
--   Temperature       tempfmt.c: degrees (tempfmt_degrees), frames (tempfmt_frames), and the decoding of
--                     the register of ds3231.c. Temperature/Digits reads the digits.
--   Time              wapps/lib/timepolicy.c: decide (tg_time_decide), parse_source, parse_offset.
--   Broker            wapps/tg-broker/broker.c: Broker/Engine has what the broker calls, write_all and
--                     write_node; Broker/State the static variables and to_peer; Broker/Requests the
--                     handlers on_link_frame and on_peer_frame; Broker/Loop one round of the loop of
--                     main (turn); Broker/Boot what main sets up (boot).
--   Hass              wapps/tg-hass: Hass/Text has wapps/lib/hassparse.c with set_ext and format_tenths
--                     of hass.c; Hass/Mqtt the packets of mqtt.c; Hass/Session its session (fill,
--                     connect, publish, subscribe, poll, keepalive) over a Socket.
--   Ota               wapps/tg-ota/ota.c over the Engine of the broker: on_frame, pump, send,
--                     line_write. Ota/Requests has request, ask_until, raw_enter, running_version;
--                     Ota/Bootloader the exchange with the bootloader of the STM32 (wait_byte,
--                     an_command, an_sync, an_get_id, an_erase, an_write); Ota/Image the pins,
--                     write_image and flash; Ota/Run the files, open_pipes and main. Ota/Kept and
--                     Ota/Clock are about what the talk leaves alone and the time that it takes,
--                     Ota/Requests/Source and Ota/Requests/Version about where a reply comes from.
--   Base              Boolean tests, C arrays as lists, words, bit operations, signed integers.
--   Examples          concrete inputs.
--
-- How they interact: server_turn gives the bytes of the link to parser_push, hands each call to
-- on_frame, whose handler sends its reply with send_frame, ack or nack, and then sends what the ring
-- of a followed channel holds. The reader of a channel fills that ring (reader_got, chan_put). A
-- change of the settings of the display goes through persist into config_save; an animation draws
-- with begin, draw_pixel and commit on a Panel, its text with a Font. The server takes the display
-- through Server/Board and not yet through these modules.
--
-- At the other end of the link, the Broker hands the frames of its peers on with start_request and
-- takes the replies in on_link_frame, both with the same parser and encoder. The bridge sends an
-- outside temperature that check_exttemp of the board takes. tg-ota asks the board for its
-- version and the broker for raw mode with ask_until; in raw mode it talks to the bootloader in frames
-- of op_raw_data, and writes the image in chunks with an_write.
--
-- Numbers are natural numbers with the wrap-around of their C type written out. A path or a text is
-- the list of its bytes before the final zero. `sent` of Ctx records the frames given to ipc_send,
-- for statements about replies; the code has no such field. Loops without a structural bound run on
-- fuel: the drain on one more than the length of its buffer, since each turn but the last takes a
-- byte; the timeout on the length, since each round discards one; a push on two rounds for each byte
-- and two more, since a round with a full buffer is followed by one that copies; ipc_send on the
-- number of its bytes, since a round writes one or more.
--
-- The search of a character runs on the number of the entries of its font, since each round leaves
-- fewer of them; the loops over a text on the number of its bytes, since a character takes at least
-- one.
--
-- The broker writes on 201 rounds for each byte and 201 more, since a byte takes at most 200 retries;
-- the client of MQTT waits on one round for each 10 ms of its time and two more, since a round naps
-- for 10 ms, polls on the number of the bytes of its buffer, since a round drops a packet, and writes
-- a length on one more than its value, since a round divides it. The waits of tg-ota
-- run on one round for each 10 ms of their time and two more, since a round naps for 10 ms; ask_until on
-- one for each second and two more, since a question that is asked again pauses for one; the image on
-- one more than its bytes, since a round takes one or more. A file of no known length (file_size) is
-- read on a number of rounds that main is given. `lines` of Ota records what is given to line_write,
-- and `given` and `asked` of the Broker record the frames for and from its peers; the code has no such
-- fields.
--
-- Not modelled: the writes to pins, timers and the bus on the STM32, the threads that call the display,
-- the bring-up of the board, and the wapps but for the policy of the clocks, the broker, tg-ota and the
-- parts of the bridge named above. What a wapp prints is left out, but for the lines of the broker. The
-- pauses of the server change no state. A run of the loop of the server and a read of a channel are one
-- step each; the interrupt of the rows is a step among those of a writer.
pub mod Base
pub mod Ipc
pub mod Channel
pub mod Time
pub mod Server
pub mod Flash
pub mod Panel
pub mod Font
pub mod Display
pub mod Temperature
pub mod Broker
pub mod Hass
pub mod Ota
pub mod Examples
