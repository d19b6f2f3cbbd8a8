-- ===== src/Wire/Tests.antt =====
-- proto_read_line, proto_read_exact and proto_send_line on a connection of two texts.
use win16sync.Prelude.{◌≡◌, refl, some, [], codes, arith}
use win16sync.Client.{client_init}
use win16sync.Wire.{newline_index, receive, read_line_loop, read_line, read_exact, send_line}
use win16sync.Wire.{Client}
use win16sync.Wire.Pipe.{pipe, pipe-IsStream, pipe-StaysUp}
use win16sync.Wire.Stream.{input}
use win16sync.Wire.ReadLine.{ReadsLine, read_line-ReadsLine}
use win16sync.Wire.Arrival.{read_line-arrives}
use win16sync.Wire.ReadExact.{ReadsExact, read_exact-ReadsExact}
use win16sync.Wire.Send.{Sends, send_line-Sends}

-- "OK " is in the buffer, the end of that line and "FILE" are on their way.
abbrev listening : Client pipe
listening = record client_init {
  socket_handle = some (codes "8\r\nFILE", []);
  recv_buffer = codes "OK ";
}

line_of : (read_line pipe listening 16).0 ≡ some (codes "OK 8")
unfolding read_line client_init read_line_loop newline_index receive
line_of = refl

read_line-ReadsLine_example :
    ReadsLine pipe pipe-IsStream listening 16 (read_line pipe listening 16)
read_line-ReadsLine_example = read_line-ReadsLine pipe pipe-IsStream listening 16 (omega arith)

read_line-arrives_example :
    ((read_line pipe listening 16).0 ≡ some (codes "OK 8"))
    × (input pipe pipe-IsStream (read_line pipe listening 16).1 ≡ codes "FILE")
read_line-arrives_example =
    read_line-arrives pipe pipe-IsStream pipe-StaysUp (codes "OK 8\r") (codes "FILE")
      (refl, (refl, (refl, (refl, (refl, tt))))) listening 16 (omega arith) refl (omega arith)
      (omega arith)

read_exact-ReadsExact_example :
    ReadsExact pipe pipe-IsStream 8 listening [] (read_exact pipe listening 8)
read_exact-ReadsExact_example = read_exact-ReadsExact pipe pipe-IsStream listening 8

send_line-Sends_example :
    Sends pipe pipe-IsStream listening (codes "LIST\r\n") (send_line pipe listening (codes "LIST"))
send_line-Sends_example = send_line-Sends pipe pipe-IsStream listening (codes "LIST")
