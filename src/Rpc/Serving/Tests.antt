-- ===== src/Rpc/Serving/Tests.antt =====
-- A server of weight 5 with one service on port 80 of "1.2.3.4".
use gd_rpc.Base.{◌≡◌, ◌+◌, refl, [], ◌∷◌, ◌++◌, false, some, arith, length}
use gd_rpc.Base.Int.{pos}
use gd_rpc.Text.Decimal.{print_nat, print_int}
use gd_rpc.Rpc.ZkClient.{endpoint_line, publish_all}
use gd_rpc.Rpc.SampleZookeeper.{memory, empty_tree}
use gd_rpc.Net.ThreadPool.{get_all_loops}
use gd_rpc.Net.SampleNet.{sample_ip, sample_net}
use gd_rpc.Net.TcpServer.{bound, listened, reading_enabled}
use gd_rpc.Net.TcpServer.Started.{started_server}
use gd_rpc.Rpc.Serving.{server_name, of_server, published, run_server}
use gd_rpc.Rpc.Serving.Whole.{run_server_lem}

run_server_lem_sample :
    let s =
      started_server false (λ i. 10 + i) 15 9 (sample_ip ++ (b':' ∷ print_nat 80)) server_name 3 in
    (run_server memory sample_net []
        (λ i. 10 + i)
        9
        3
        sample_ip
        (pos 80)
        (pos 5)
        ((b'S' ∷ []) ∷ [])
        empty_tree
      ≡ some (
        publish_all memory []
            (endpoint_line sample_ip (pos 80) (pos 5))
            ((b'S' ∷ []) ∷ [])
            empty_tree,
        of_server (bound 3)
            ∷ published (b'S' ∷ [])
            ∷ of_server (listened 3)
            ∷ of_server (reading_enabled 3)
            ∷ [],
        s,
      ))
    × (length (get_all_loops s.thread_pool) ≡ 15)
unfolding endpoint_line print_int print_nat
run_server_lem_sample =
    run_server_lem memory sample_net [] (λ i. 10 + i) 9 3 80 sample_ip (pos 5) ((b'S' ∷ []) ∷ [])
      empty_tree (omega arith) refl (omega arith)
