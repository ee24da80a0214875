-- ===== src/Tests/Echoing.antt =====
-- An echo request and its answer.
use platform.Common.{◌+◌, ◌%◌, ◌≡◌, ◌≢◌, refl, arith, [], ok, some}
use platform.Capture.Classify.{ntohl}
use platform.Echo.{
  Arp, Frame, Replies, reply, reply_ip, reply_cksum, is_multicast_ipv4_addr, echo_loop,
}
use platform.Echo.Checksum.{Loaded, Right, reply-Right}
use platform.Echo.Burst.{frames, answers, unanswered, burst_answered, long_burst_never_ends}

abbrev no_arp : Arp
no_arp = record {
  arp_hrd = 0;
  arp_pro = 0;
  arp_hln = 0;
  arp_pln = 0;
  arp_op = 0;
  arp_sha = 0;
  arp_sip = 0;
  arp_tha = 0;
  arp_tip = 0;
}

abbrev request : Frame
request = record {
  d_addr = 20;
  s_addr = 10;
  ether_type = 2048;
  eth_proto = 0;
  arp = no_arp;
  ip = record {
    word0 = 0;
    word1 = 0;
    word2 = 0;
    word3 = 0;
    word4 = 320;
    hdr_checksum = 65212;
    src_addr = 1;
    dst_addr = 2;
  };
  icmp = record { icmp_type = 8; icmp_code = 0; icmp_cksum = 65527 };
}

abbrev answer : Frame
answer = record {
  d_addr = 10;
  s_addr = 20;
  ether_type = 2048;
  eth_proto = 0;
  arp = no_arp;
  ip = record {
    word0 = 0;
    word1 = 0;
    word2 = 0;
    word3 = 0;
    word4 = 320;
    hdr_checksum = 65212;
    src_addr = 2;
    dst_addr = 1;
  };
  icmp = record { icmp_type = 0; icmp_code = 0; icmp_cksum = 0 };
}

request_answered : reply 7 request ≡ some answer
unfolding reply reply_ip reply_cksum is_multicast_ipv4_addr ntohl
request_answered = refl

request-Loaded : Loaded request.ip
request-Loaded = record {
  word0 = omega arith;
  word1 = omega arith;
  word2 = omega arith;
  word3 = omega arith;
  word4 = omega arith;
  src_addr = omega arith;
  dst_addr = omega arith;
}

reply-Right_example :
    Right answer.ip
    × ((answer.icmp.icmp_type + answer.icmp.icmp_cksum + 0) % 65535 ≡ 0)
    × (answer.ip.dst_addr ≡ request.ip.src_addr)
    × (answer.d_addr ≡ request.s_addr)
reply-Right_example =
    reply-Right 7 request answer 0 refl request_answered request-Loaded (omega arith) (omega arith)
      (omega arith)

abbrev burst : Replies
burst = record { pkts_burst = λ j. request; nb_replies = 0; freed = [] }

burst_answered_example :
    (r : Replies) × (echo_loop 2 512 7 2 0 burst ≡ ok (some r))
    × (frames r.nb_replies 0 r.pkts_burst ≡ answers 7 (frames 2 0 (λ j. request)))
    × (r.freed ≡ unanswered 7 (frames 2 0 (λ j. request)))
burst_answered_example = burst_answered 512 7 2 (λ j. request) (omega arith) (omega arith)

long_burst_never_ends_example : echo_loop 1000 512 7 300 0 burst ≢ ok (some burst)
long_burst_never_ends_example =
    long_burst_never_ends 1000 512 7 300 0 burst burst (omega arith) (omega arith)
