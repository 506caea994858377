-- ===== src/Tests/Messages.antt =====
-- Hexadecimal text, the message and the hook data.
use lendoor_stellar.Common.{◌≡◌, refl, ok, arith}
use lendoor_stellar.Cctp.Message.{bytes_to_hex, parse_cctp_message}
use lendoor_stellar.Cctp.Message.RoundTrip.{parse_cctp_message-encode}
use lendoor_stellar.Tests.Sample.{
  sample_header, sample_header-IsHeader, sample_body, sample_body-IsBody, sample_bytes, nonce32,
}

parse_cctp_message-encode_example :
    parse_cctp_message (bytes_to_hex sample_bytes)
    ≡ ok (record sample_header { nonce = bytes_to_hex nonce32 }, sample_body)
parse_cctp_message-encode_example =
    parse_cctp_message-encode sample_header nonce32 sample_body sample_header-IsHeader
      (refl, ground arith) sample_body-IsBody
