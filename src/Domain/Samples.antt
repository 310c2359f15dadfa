-- ===== src/Domain/Samples.antt =====
-- The two sample texts of src/domain/session_description.rs.
use srt_whep.Prelude.{String}

abbrev pub valid_whip_offer : String
valid_whip_offer =
    "v=0\n    o=- 8119464979627461093 0 IN IP4 0.0.0.0\n    s=-\n    t=0 0\n    a=ice-options:trickle\n    a=group:BUNDLE video0\n    m=video 9 UDP/TLS/RTP/SAVPF 96\n    c=IN IP4 0.0.0.0\n    a=setup:actpass\n    a=ice-ufrag:nCDA1pOKt6pxoXhw47QNjh9Ea+5iSzch\n    a=ice-pwd:8JrchkUez1iva/w2VWHkLIiBrE3tvicx\n    a=rtcp-mux\n    a=rtcp-rsize\n    a=sendonly\n    a=rtpmap:96 H264/90000\n    a=rtcp-fb:96 nack pli\n    a=rtcp-fb:96 ccm fir\n    a=rtcp-fb:96 transport-cc\n    a=framerate:20\n    a=fmtp:96 packetization-mode=1;sprop-parameter-sets=Z3oAM7y0AXoHv8uAtQEBAUAAAAMAQAAACiPGDKg=,aO88sA==;profile-level-id=7a0033;level-asymmetry-allowed=1\n    a=ssrc:2736603989 msid:user784124463@host-7732ac8e webrtctransceiver0\n    a=ssrc:2736603989 cname:user784124463@host-7732ac8e\n    a=mid:video0\n    a=fingerprint:sha-256 47:3F:D2:71:05:5E:0A:10:F9:35:90:61:9A:49:91:7C:35:5A:B9:2A:8B:AB:D6:9A:DD:36:F4:0B:E5:14:17:86\n    a=rtcp-mux-only\n    a=candidate:1 1 UDP 2015363327 fe80::1834:cb0a:c07b:b1bc 54257 typ host\n    a=candidate:2 1 TCP 1015021823 fe80::1834:cb0a:c07b:b1bc 9 typ host tcptype active\n    a=candidate:3 1 TCP 1010827519 fe80::1834:cb0a:c07b:b1bc 56566 typ host tcptype passive\n    a=candidate:4 1 UDP 2015363583 10.247.169.107 53559 typ host\n    a=candidate:5 1 TCP 1015022079 10.247.169.107 9 typ host tcptype active\n    a=candidate:6 1 TCP 1010827775 10.247.169.107 56567 typ host tcptype passive"

abbrev pub valid_whep_answer : String
valid_whep_answer =
    "v=0\n    o=- 4658353067706891397 0 IN IP4 0.0.0.0\n    s=-\n    t=0 0\n    a=ice-options:trickle\n    a=group:BUNDLE video0\n    m=video 9 UDP/TLS/RTP/SAVPF 96\n    c=IN IP4 0.0.0.0\n    a=setup:actpass\n    a=ice-ufrag:Avv2VrwoBrrlWRdPo6G6iosh8vkNlD3c\n    a=ice-pwd:7Cw49i4Cf0z8M/O9B9NccatweSJdlETz\n    a=rtcp-mux\n    a=rtcp-rsize\n    a=recvonly\n    a=rtpmap:96 H264/90000\n    a=rtcp-fb:96 nack pli\n    a=rtcp-fb:96 ccm fir\n    a=rtcp-fb:96 transport-cc\n    a=mid:video0\n    a=fingerprint:sha-256 27:04:FA:3B:82:77:17:2F:8C:69:47:B8:57:07:C9:68:AC:58:74:12:24:4B:CD:83:C4:D9:83:A1:BE:4D:22:4C\n    a=rtcp-mux-only\n    a=candidate:1 1 UDP 2015363327 fe80::1834:cb0a:c07b:b1bc 53998 typ host\n    a=candidate:2 1 TCP 1015021823 fe80::1834:cb0a:c07b:b1bc 9 typ host tcptype active\n    a=candidate:3 1 TCP 1010827519 fe80::1834:cb0a:c07b:b1bc 56577 typ host tcptype passive\n    a=candidate:4 1 UDP 2015363583 10.247.169.107 62020 typ host\n    a=candidate:5 1 TCP 1015022079 10.247.169.107 9 typ host tcptype active\n    a=candidate:6 1 TCP 1010827775 10.247.169.107 56578 typ host tcptype passive"
