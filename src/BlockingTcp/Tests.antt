-- ===== src/BlockingTcp/Tests.antt =====
-- A concrete socket: a frame and one byte of another are there to be read.
use pulse_core.Base.{[], ◌∷◌, arith}
use pulse_core.Codec.{new_decoder}
use pulse_core.Codec.Stream.{new_decoder-IsDecoder}
use pulse_core.Connection.Tests.{sockets, stream, arrived}
use pulse_core.BlockingTcp.{send_all, read_message, serve_client}
use pulse_core.BlockingTcp.Send.{SendsAll, send_all-SendsAll}
use pulse_core.BlockingTcp.Receive.{ReadsMessage, read_message-ReadsMessage}
use pulse_core.Codec.Tests.{ping}
use pulse_core.BlockingTcp.Exchange.{
  Exchanges, send_request_and_read_response, send_request-Exchanges,
}
use pulse_core.BlockingTcp.Serve.{ServesAll, serve_client-ServesAll}

send_all-SendsAll_example :
    SendsAll sockets 3 stream
      (1 ∷ 2 ∷ 3 ∷ [])
      arrived
      (send_all sockets 9 3 (1 ∷ 2 ∷ 3 ∷ []) arrived)
send_all-SendsAll_example =
    send_all-SendsAll sockets 3 stream (1 ∷ 2 ∷ 3 ∷ []) 9 arrived (omega arith)

read_message-ReadsMessage_example :
    ReadsMessage sockets 3 stream new_decoder arrived
      (read_message sockets 99 3 new_decoder arrived)
read_message-ReadsMessage_example =
    read_message-ReadsMessage sockets 3 stream 99 new_decoder arrived new_decoder-IsDecoder
      (omega arith)

serve_client-ServesAll_example :
    ServesAll sockets 3 stream 70000 new_decoder arrived (serve_client sockets 99 70000 3 arrived)
serve_client-ServesAll_example =
    serve_client-ServesAll sockets 3 stream 99 70000 arrived (omega arith) (omega arith)

send_request-Exchanges_example :
    Exchanges sockets 3 stream ping arrived
      (send_request_and_read_response sockets 70000 3 ping arrived)
send_request-Exchanges_example =
    send_request-Exchanges sockets 3 stream ping 70000 arrived (omega arith)
